-- ===== src/Date.antt =====
-- base/date.h and base/date.cc: dates as Julian day numbers. The functions
-- compute on integers; every `int` on their way, whose overflow C++ leaves undefined, is listed beside
-- them.
pub mod Calendar
pub mod Ints
pub mod RoundTrip
pub mod Successor
mod Tests
use ccnet.Prelude.{
  ℕ, zero, suc, ◌+◌, ◌-◌, ◌*◌, ◌/◌, ◌%◌, ◌^◌, ◌≤◌, ◌<◌, min, max, ◌≡◌, refl, sym, ap, ap₂, subst,
  ◌∙◌, ◌≡⟨◌⟩◌, ◌∎, ◌≢◌, ◌↔◌, ◌⊎◌, inl, inr, Bool, true, false, not, ◌&&◌, ◌||◌, Option, none, some,
  List, [], ◌∷◌, ◌++◌, map, append-nil, append_assoc, arith, ltb, leb, ◌==◌, if◌then◌else◌, ltb_iff,
  leb_iff, ==_iff, ==_refl, Bool-cases, Option-cases, length, get_elem?, get_or, take, drop,
  replicate, slice, write_at, length-append, length-take, length-drop, length-replicate,
}
use ccnet.Prelude.Int.{ℤ, pos, ◌+ℤ◌, ◌-ℤ◌, ◌*ℤ◌, ◌/ℤ◌, ◌%ℤ◌, ltb_ℤ, eqb_ℤ}

pub record YearMonthDay : Type 0 where
  pub year : ℤ
  pub month : ℤ
  pub day : ℤ

unfoldable pub get_julian_day_number : ℤ → ℤ → ℤ → ℤ
get_julian_day_number year month day =
    let a = (pos 14 -ℤ month) /ℤ 12 in
    let y = year +ℤ pos 4800 -ℤ a in
    let m = month +ℤ pos 12 *ℤ a -ℤ pos 3 in
    day
    +ℤ (pos 153 *ℤ m +ℤ pos 2) /ℤ 5
    +ℤ y *ℤ pos 365
    +ℤ y /ℤ 4
    -ℤ y /ℤ 100
    +ℤ y /ℤ 400
    -ℤ pos 32045

unfoldable pub get_year_month_day : ℤ → YearMonthDay
get_year_month_day julian_day_number =
    let a = julian_day_number +ℤ pos 32044 in
    let b = (pos 4 *ℤ a +ℤ pos 3) /ℤ 146097 in
    let c = a -ℤ (b *ℤ pos 146097) /ℤ 4 in
    let d = (pos 4 *ℤ c +ℤ pos 3) /ℤ 1461 in
    let e = c -ℤ (pos 1461 *ℤ d) /ℤ 4 in
    let m = (pos 5 *ℤ e +ℤ pos 2) /ℤ 153 in
    record {
      year = b *ℤ pos 100 +ℤ d -ℤ pos 4800 +ℤ m /ℤ 10;
      month = m +ℤ pos 3 -ℤ pos 12 *ℤ (m /ℤ 10);
      day = e -ℤ (pos 153 *ℤ m +ℤ pos 2) /ℤ 5 +ℤ pos 1;
    }

-- Every `int` that the two functions above compute on their way, in the order of the source.
unfoldable pub julian_day_number_ints : ℤ → ℤ → ℤ → List ℤ
julian_day_number_ints year month day =
    let a = (pos 14 -ℤ month) /ℤ 12 in
    let y = year +ℤ pos 4800 -ℤ a in
    let m = month +ℤ pos 12 *ℤ a -ℤ pos 3 in
    let days = day +ℤ (pos 153 *ℤ m +ℤ pos 2) /ℤ 5 in
    let plain = days +ℤ y *ℤ pos 365 in
    let julian = plain +ℤ y /ℤ 4 in
    let centuries = julian -ℤ y /ℤ 100 in
    let gregorian = centuries +ℤ y /ℤ 400 in
    (pos 14 -ℤ month)
    ∷ a
    ∷ (year +ℤ pos 4800)
    ∷ y
    ∷ (pos 12 *ℤ a)
    ∷ (month +ℤ pos 12 *ℤ a)
    ∷ m
    ∷ (pos 153 *ℤ m)
    ∷ (pos 153 *ℤ m +ℤ pos 2)
    ∷ days
    ∷ (y *ℤ pos 365)
    ∷ plain
    ∷ julian
    ∷ centuries
    ∷ gregorian
    ∷ (gregorian -ℤ pos 32045)
    ∷ []

unfoldable pub year_month_day_ints : ℤ → List ℤ
year_month_day_ints julian_day_number =
    let a = julian_day_number +ℤ pos 32044 in
    let b = (pos 4 *ℤ a +ℤ pos 3) /ℤ 146097 in
    let c = a -ℤ (b *ℤ pos 146097) /ℤ 4 in
    let d = (pos 4 *ℤ c +ℤ pos 3) /ℤ 1461 in
    let e = c -ℤ (pos 1461 *ℤ d) /ℤ 4 in
    let m = (pos 5 *ℤ e +ℤ pos 2) /ℤ 153 in
    a
    ∷ (pos 4 *ℤ a)
    ∷ (pos 4 *ℤ a +ℤ pos 3)
    ∷ b
    ∷ (b *ℤ pos 146097)
    ∷ c
    ∷ (pos 4 *ℤ c)
    ∷ (pos 4 *ℤ c +ℤ pos 3)
    ∷ d
    ∷ (pos 1461 *ℤ d)
    ∷ e
    ∷ (pos 5 *ℤ e)
    ∷ (pos 5 *ℤ e +ℤ pos 2)
    ∷ m
    ∷ (pos 153 *ℤ m)
    ∷ (pos 153 *ℤ m +ℤ pos 2)
    ∷ (e -ℤ (pos 153 *ℤ m +ℤ pos 2) /ℤ 5)
    ∷ (e -ℤ (pos 153 *ℤ m +ℤ pos 2) /ℤ 5 +ℤ pos 1)
    ∷ (m +ℤ pos 3)
    ∷ (pos 12 *ℤ (m /ℤ 10))
    ∷ (m +ℤ pos 3 -ℤ pos 12 *ℤ (m /ℤ 10))
    ∷ (b *ℤ pos 100)
    ∷ (b *ℤ pos 100 +ℤ d)
    ∷ (b *ℤ pos 100 +ℤ d -ℤ pos 4800)
    ∷ (b *ℤ pos 100 +ℤ d -ℤ pos 4800 +ℤ m /ℤ 10)
    ∷ []

pub record Date : Type 0 where
  pub julian_day_number : ℤ

pub invalid : Date
invalid = record { julian_day_number = pos 0 }

unfoldable pub from_ymd : ℤ → ℤ → ℤ → Date
from_ymd year month day = record { julian_day_number = get_julian_day_number year month day }

-- The fields of `struct tm` that the constructor reads: years since 1900, months since January.
unfoldable pub from_tm : ℤ → ℤ → ℤ → Date
from_tm tm_year tm_mon tm_mday = from_ymd (tm_year +ℤ pos 1900) (tm_mon +ℤ pos 1) tm_mday

unfoldable pub is_valid : Date → Bool
is_valid d = ltb_ℤ (pos 0) d.julian_day_number

unfoldable pub year_month_day : Date → YearMonthDay
year_month_day d = get_year_month_day d.julian_day_number

abbrev pub days_per_week : ℕ
days_per_week = 7

-- Sunday is 0.
unfoldable pub week_day : Date → ℤ
week_day d = (d.julian_day_number +ℤ pos 1) %ℤ days_per_week

unfoldable pub less_than : Date → Date → Bool
less_than x y = ltb_ℤ x.julian_day_number y.julian_day_number

unfoldable pub equal : Date → Date → Bool
equal x y = eqb_ℤ x.julian_day_number y.julian_day_number
