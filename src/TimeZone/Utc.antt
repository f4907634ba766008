-- ===== src/TimeZone/Utc.antt =====
-- base/time_zone.cc: `toUtcTime` and `fromUtcTime` one after the other.
use ccnet.Prelude.{
  ℕ, suc, ◌+◌, ◌-◌, ◌*◌, ◌/◌, ◌%◌, ◌≤◌, ◌<◌, ◌≡◌, refl, sym, ap, subst, ◌∙◌, inl, inr, Bool, arith,
  ◌==◌, Bool-cases,
}
use ccnet.Prelude.Int.{
  ℤ, pos, negsuc, sub_ℕ, ◌+ℤ◌, ◌-ℤ◌, ◌*ℤ◌, ◌/ℤ◌, ◌%ℤ◌, ◌≤ℤ◌, int_laws, pos_laws, -ℤ-+ℤ, pos_part,
  neg_part, ◌<ℤ◌, IsInt, +ℤ-pos, to_int-IsInt, *ℤ-pos,
}
use ccnet.Date.{get_julian_day_number, get_year_month_day, from_ymd, year_month_day}
use ccnet.Date.RoundTrip.{get_julian_day_number-get_year_month_day}
use ccnet.TimeZone.{
  fill_hms, split_days, to_utc_time, from_utc_fields, from_utc_time, julian_day_of_1970,
  seconds_per_day,
}
use ccnet.Date.Ints.{last_day_count}

-- The day that a second stands in, and the second of that day.
pub record Splits (t : ℤ) : Type 0 where
  pub second : ℕ
  pub day : ℤ
  pub split : split_days t ≡ (pos second, day)
  pub short : second < 86400
  pub whole : day *ℤ pos 86400 +ℤ pos second ≡ t

split_days_lem : (t : ℤ) → IsInt (t %ℤ seconds_per_day) → IsInt (t /ℤ seconds_per_day) → Splits t
unfolding split_days ◌/ℤ◌ ◌%ℤ◌ ◌*ℤ◌ ◌+ℤ◌ ◌-ℤ◌
split_days_lem (pos a) f g = record {
  second = a % 86400;
  day = pos (a / 86400);
  split = rw (to_int-IsInt _ f, to_int-IsInt _ g) (ground arith);
  short = omega arith;
  whole = ground arith;
}
split_days_lem (negsuc a) f g = elim (Bool-cases (suc a % 86400 == 0)) [
  | inl e ↦ record {
    second = 0;
    day = sub_ℕ 0 (suc a / 86400);
    split = rw (to_int-IsInt _ f, to_int-IsInt _ g) (ground arith);
    short = omega arith;
    whole = ground arith;
  }
  | inr e ↦ record {
    second = 86400 - suc a % 86400;
    day = sub_ℕ 0 (suc a / 86400) -ℤ pos 1;
    split = rw (to_int-IsInt _ f, to_int-IsInt _ g) (ground arith);
    short = ground arith;
    whole = ground arith;
  }
]

-- The seconds from the year after March of 4801 BC on, up to the last day whose `4 * a + 3` is an `int`:
-- the casts keep what they cast.
abbrev pub IsInReach : ℤ → Type 0
IsInReach t = (pos 0 ≤ℤ t +ℤ pos (86400 * 2472266)) × (t <ℤ pos (86400 * 534398280))

casts_fit : (t : ℤ) → IsInReach t → IsInt (t %ℤ seconds_per_day) × IsInt (t /ℤ seconds_per_day)
unfolding ◌/ℤ◌ ◌%ℤ◌
casts_fit (pos a) (l, u) = ((omega arith, omega arith), (omega arith, omega arith))
casts_fit (negsuc a) (l, u) =
    let close : suc a ≤ 86400 * 2472266 = omega int_laws in
    ((ground arith, ground arith), (ground arith, ground arith))

-- The seconds of a day are put together again.
hms_sum : (s : ℕ) → let (h, m, x) = fill_hms (pos s) in h *ℤ pos 3600 +ℤ m *ℤ pos 60 +ℤ x ≡ pos s
unfolding fill_hms
hms_sum s = simp pos_laws (ap pos (omega arith))

not_negative : (x : ℤ) → pos 0 ≤ℤ x → neg_part x ≡ 0
not_negative (pos n) h = refl
not_negative (negsuc n) h = absurd (omega arith)

neg_times : (n : ℕ) → negsuc n *ℤ pos 86400 ≡ negsuc (86400 * n + 86399)
unfolding ◌*ℤ◌
neg_times n = ground arith

late_day :
    (day t : ℤ) (second : ℕ)
    → second < 86400
    → day *ℤ pos 86400 +ℤ pos second ≡ t
    → pos 0 ≤ℤ t +ℤ pos (86400 * 2472266)
    → pos 366 ≤ℤ day +ℤ pos 2472632
late_day (pos n) t second h e late = omega int_laws
late_day (negsuc n) t second h e late =
    let f = ap (λ z. z +ℤ pos second) (sym (neg_times n)) ∙ e in
    subst (λ z. pos 0 ≤ℤ z +ℤ pos (86400 * 2472266) → pos 366 ≤ℤ negsuc n +ℤ pos 2472632) f
      (λ l. omega int_laws) late

early_day :
    (day t : ℤ) (second : ℕ)
    → day *ℤ pos 86400 +ℤ pos second ≡ t
    → t <ℤ pos (86400 * 534398280)
    → day <ℤ pos 534398280
early_day (pos n) t second e early =
    let f = ap (λ z. z +ℤ pos second) (sym (*ℤ-pos n 86400)) ∙ e in
    subst (λ z. z <ℤ pos (86400 * 534398280) → pos n <ℤ pos 534398280)
      (sym (+ℤ-pos (n * 86400) second) ∙ f) (λ l. omega arith) early
early_day (negsuc n) t second e early = omega arith

-- The calendar's day of a day since 1970, from March of 4800 BC on.
module _ (day : ℤ) (late : pos 366 ≤ℤ day +ℤ pos 2472632) (early : day <ℤ pos 534398280) where
  abbrev number : ℕ
  number = pos_part (day +ℤ pos 2472632)

  number_eq : pos number -ℤ pos 32044 ≡ day +ℤ julian_day_of_1970
  number_eq = omega (int_laws, not_negative (day +ℤ pos 2472632) (omega int_laws))

  number_late : 366 ≤ number
  number_late = omega int_laws

  number_early : number ≤ last_day_count
  number_early = omega (int_laws, not_negative (day +ℤ pos 2472632) (omega int_laws))

  -- Days are found again by their dates.
  days_again :
      let ymd = get_year_month_day (day +ℤ julian_day_of_1970) in
      get_julian_day_number ymd.year ymd.month ymd.day ≡ day +ℤ julian_day_of_1970
  days_again =
      let (y, m, d, _, found, counted, _, _) =
        get_julian_day_number-get_year_month_day number number_late number_early in
      subst
        (λ j.
          let ymd = get_year_month_day j in get_julian_day_number ymd.year ymd.month ymd.day ≡ j)
        number_eq (rw found counted)

+ℤ--ℤ : (a b : ℤ) → a +ℤ b -ℤ b ≡ a
+ℤ--ℤ a b = omega int_laws

-- For every second from the year after March of 4801 BC on, up to the last day for which the `4 * a + 3`
-- of the conversion to a date is an `int`, the broken-down time in UTC that is found for it, with its
-- casts to `int`, stands for that second.
pub from_utc_time-to_utc_time :
    (yday : Bool) (t : ℤ) → IsInReach t → from_utc_time (to_utc_time yday t) ≡ t
unfolding from_utc_time to_utc_time from_utc_fields from_ymd year_month_day
from_utc_time-to_utc_time yday t (late, early) =
    let (f, g) = casts_fit t (late, early) in
    let s = split_days_lem t f g in
    rw s.split (
      simp
        (
          -ℤ-+ℤ,
          days_again s.day (late_day s.day t s.second s.short s.whole late)
              (early_day s.day t s.second s.whole early),
          +ℤ--ℤ,
          hms_sum s.second,
        )
        s.whole)
