-- ===== src/TimeZone.antt =====
-- base/time_zone.cc: seconds since 1970 as broken-down time and back, and the search for a local
-- time among the transitions of a zone. A `time_t` or `int` is an unbounded integer here;
-- the casts of `toUtcTime` to `int` keep the low 32 bits.
pub mod Utc
pub mod Bound
pub mod Search
pub mod Local
pub mod LocalTrip
pub mod File
pub mod Format
pub mod FileTrip
pub mod FileError
mod Tests
mod LocalTests
use ccnet.Prelude.{
  ℕ, zero, suc, ◌+◌, ◌-◌, ◌*◌, ◌/◌, ◌%◌, ◌^◌, ◌≤◌, ◌<◌, min, max, ◌≡◌, refl, sym, ap, ap₂, subst,
  ◌∙◌, ◌≡⟨◌⟩◌, ◌∎, ◌≢◌, ◌↔◌, ◌⊎◌, inl, inr, Bool, true, false, not, ◌&&◌, ◌||◌, Option, none, some,
  List, [], ◌∷◌, ◌++◌, map, append-nil, append_assoc, arith, ltb, leb, ◌==◌, if◌then◌else◌, ltb_iff,
  leb_iff, ==_iff, ==_refl, Bool-cases, Option-cases, length, get_elem?, get_or, take, drop,
  replicate, slice, write_at, length-append, length-take, length-drop, length-replicate,
}
use ccnet.Prelude.Outcome.{Outcome, ok, assert_failed, length_error, ◌>>=◌, ◌>>◌, assert, value_or}
use ccnet.Prelude.Int.{ℤ, pos, negsuc, ◌+ℤ◌, ◌-ℤ◌, ◌*ℤ◌, ◌/ℤ◌, ◌%ℤ◌, ltb_ℤ, eqb_ℤ, pos_part, to_int}
use ccnet.Date.{
  Date, YearMonthDay, get_julian_day_number, get_year_month_day, from_ymd, year_month_day, week_day,
}

pub record Transition : Type 0 where
  pub gmt_time : ℤ
  pub local_time : ℤ
  pub localtime_idx : ℕ

-- `Comp`, by its flag `compareGmt`.
unfoldable pub comp : Bool → Transition → Transition → Bool
comp true lhs rhs = ltb_ℤ lhs.gmt_time rhs.gmt_time
comp false lhs rhs = ltb_ℤ lhs.local_time rhs.local_time

unfoldable pub comp_equal : Bool → Transition → Transition → Bool
comp_equal true lhs rhs = eqb_ℤ lhs.gmt_time rhs.gmt_time
comp_equal false lhs rhs = eqb_ℤ lhs.local_time rhs.local_time

pub record LocalTime : Type 0 where
  pub gmt_offset : ℤ
  pub is_dst : Bool
  pub arrb_idx : ℕ

pub record Data : Type 0 where
  pub transitions : List Transition
  pub localtimes : List LocalTime
  pub abbreviation : List ℕ

-- The fields of `struct tm` that the code writes.
pub record Tm : Type 0 where
  pub tm_sec : ℤ
  pub tm_min : ℤ
  pub tm_hour : ℤ
  pub tm_year : ℤ
  pub tm_mon : ℤ
  pub tm_mday : ℤ
  pub tm_wday : ℤ
  pub tm_yday : ℤ

abbrev pub seconds_per_day : ℕ
seconds_per_day = 86400

-- Hour, minute and second of a second of the day.
unfoldable pub fill_hms : ℤ → ℤ × ℤ × ℤ
fill_hms seconds = ((seconds /ℤ 60) /ℤ 60, (seconds /ℤ 60) %ℤ 60, seconds %ℤ 60)

abbrev pub julian_day_of_1970 : ℤ
julian_day_of_1970 = pos 2440588

-- The remainder and the quotient, cast to `int`, have the sign of the dividend, and are put right below
-- 1970.
unfoldable pub split_days : ℤ → ℤ × ℤ
split_days seconds_since_epoch =
    let seconds = to_int (seconds_since_epoch %ℤ seconds_per_day) in
    let days = to_int (seconds_since_epoch /ℤ seconds_per_day) in
    if ltb_ℤ seconds (pos 0)
    then (seconds +ℤ pos seconds_per_day, days -ℤ pos 1)
    else (seconds, days)

unfoldable pub to_utc_time : Bool → ℤ → Tm
to_utc_time yday seconds_since_epoch =
    let (seconds, days) = split_days seconds_since_epoch in
    let (hour, minute, second) = fill_hms seconds in
    let date : Date = record { julian_day_number = days +ℤ julian_day_of_1970 } in
    let ymd = year_month_day date in
    record {
      tm_sec = second;
      tm_min = minute;
      tm_hour = hour;
      tm_year = ymd.year -ℤ pos 1900;
      tm_mon = ymd.month -ℤ pos 1;
      tm_mday = ymd.day;
      tm_wday = week_day date;
      tm_yday =
          if yday
          then date.julian_day_number -ℤ (from_ymd ymd.year (pos 1) (pos 1)).julian_day_number
          else pos 0;
    }

unfoldable pub from_utc_fields : ℤ → ℤ → ℤ → ℤ → ℤ → ℤ → ℤ
from_utc_fields year month day hour minute seconds =
    let date = from_ymd year month day in
    let seconds_in_day = hour *ℤ pos 3600 +ℤ minute *ℤ pos 60 +ℤ seconds in
    let days = date.julian_day_number -ℤ julian_day_of_1970 in
    days *ℤ pos seconds_per_day +ℤ seconds_in_day

unfoldable pub from_utc_time : Tm → ℤ
from_utc_time utc =
    from_utc_fields (utc.tm_year +ℤ pos 1900) (utc.tm_mon +ℤ pos 1) utc.tm_mday utc.tm_hour
      utc.tm_min utc.tm_sec

-- `std::lower_bound`: how many entries of a sorted list are before the sentry.
unfoldable pub lower_bound : (Transition → Bool) → List Transition → ℕ
lower_bound before [] = 0
lower_bound before (t ∷ ts) = let rest = lower_bound before ts in if before t then suc rest else 0

-- The local time at an index. An index or an iterator outside a vector is undefined in C++; it
-- stands as a failed assertion.
unfoldable pub localtime_at : Data → ℕ → Outcome LocalTime
localtime_at zone i = elim (get_elem? zone.localtimes i) [ none ↦ assert_failed | some l ↦ ok l ]

unfoldable pub localtime_of : Data → Option Transition → Outcome LocalTime
localtime_of zone none = assert_failed
localtime_of zone (some t) = localtime_at zone t.localtime_idx

unfoldable pub previous_of : List Transition → ℕ → Outcome (Option Transition)
previous_of ts zero = assert_failed
previous_of ts (suc i) = ok (get_elem? ts i)

-- Among some transitions, of which the first is not after the sentry.
unfoldable pub find_among : Data → Transition → Bool → Outcome LocalTime
find_among zone sentry gmt =
    let at = lower_bound (λ t. comp gmt t sentry) zone.transitions in
    elim (get_elem? zone.transitions at) [
      | some t ↦
          if comp_equal gmt sentry t
          then localtime_at zone t.localtime_idx
          else previous_of zone.transitions at >>= localtime_of zone
      | none ↦ localtime_of zone (get_elem? zone.transitions (length zone.transitions - 1))
    ]

-- The first local time where no transition is before the sentry or at it.
abbrev pub find_from : List Transition → Data → Transition → Bool → Outcome LocalTime
find_from [] zone sentry gmt = localtime_at zone 0
find_from (t ∷ ts) zone sentry gmt =
    if comp gmt sentry t then localtime_at zone 0 else find_among zone sentry gmt

unfoldable pub find_localtime : Data → Transition → Bool → Outcome LocalTime
find_localtime zone sentry gmt = find_from zone.transitions zone sentry gmt
