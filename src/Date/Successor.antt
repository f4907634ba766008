-- ===== src/Date/Successor.antt =====
-- base/date.cc: the day after a date of the calendar, and its number.
use ccnet.Prelude.{
  ℕ, zero, suc, ◌+◌, ◌-◌, ◌%◌, ◌≤◌, ◌<◌, ◌≡◌, sym, ap, subst, ◌≢◌, arith, ltb, ◌==◌, if◌then◌else◌,
}
use native.Mathlib.Numerals.{add-one}
use native.Mathlib.Decide.{ℕ_discrete}
use ccnet.Prelude.Int.{ℤ, pos, ◌+ℤ◌, ◌-ℤ◌, %ℤ-pos, +ℤ-pos, int_laws}
use ccnet.Date.{get_julian_day_number, week_day}
use ccnet.Date.Calendar.{
  days_before, days_in_month, IsDay, march_year, march_month, march_day, month_start, year_length,
  february_length,
}
use ccnet.Date.RoundTrip.{common_year, get_julian_day_number-eq}

-- The day after a date of the calendar.
pub record CalendarDay : Type 0 where
  pub y : ℕ
  pub m : ℕ
  pub d : ℕ

pub day_after : CalendarDay → CalendarDay
day_after c =
    if ltb c.d (days_in_month c.y c.m)
    then record c { d = c.d + 1 }
    else if ltb c.m 12
    then record c { m = c.m + 1; d = 1 }
    else record { y = c.y + 1; m = 1; d = 1 }

abbrev pub IsCalendarDay : CalendarDay → Type 0
IsCalendarDay c = IsDay c.y c.m c.d

pub count : CalendarDay → ℕ
count c = days_before (march_year c.y c.m) + march_day c.m c.d

pub day_after-IsDay : (c : CalendarDay) → IsCalendarDay c → IsCalendarDay (day_after c)
unfolding day_after days_in_month
day_after-IsDay c v = ground arith

month_end :
    (y m : ℕ)
    → 1 ≤ m
    → m ≤ 12
    → m ≢ 2
    → month_start (march_month m) + days_in_month y m ≡ month_start (march_month m + 1)
unfolding days_in_month
month_end y m lo hi ne = ground arith

february_end : (y : ℕ) → 1 ≤ y → days_before (y - 1) + (337 + days_in_month y 2) ≡ days_before y
february_end zero h = absurd (omega arith)
february_end (suc y) h = rw (february_length (suc y), ← add-one y) (ground (arith, year_length y))

february_after :
    (y d : ℕ)
    → IsDay y 2 d
    → days_in_month y 2 ≤ d
    → days_before (march_year y 3) + march_day 3 1
      ≡ days_before (march_year y 2) + march_day 2 d + 1
february_after y d v last = omega (
  arith,
  ap days_before {x = march_year y 3} {y = y} (omega arith),
  ap days_before {x = march_year y 2} {y = y - 1} (omega arith),
  february_end y v.some_year,
  v.day_hi,
  v.day_lo,
)

-- The first of the next month, or of the next year, follows the last day of a month.
month_after :
    (y m d : ℕ)
    → IsDay y m d
    → days_in_month y m ≤ d
    → m < 12
    → days_before (march_year y (m + 1)) + march_day (m + 1) 1
      ≡ days_before (march_year y m) + march_day m d + 1
month_after y m d v last lt = elim (ℕ_discrete m 2) [
  | yes e ↦
      subst
        (λ k.
          IsDay y k d
          → days_in_month y k ≤ d
          → days_before (march_year y (k + 1)) + march_day (k + 1) 1
            ≡ days_before (march_year y k) + march_day k d + 1)
        (sym e) (february_after y d) v last
  | no ne ↦
      let same : march_year y (m + 1) ≡ march_year y m = omega (arith, v.month_lo) in
      rw same
        (omega (arith, month_end y m v.month_lo v.month_hi ne, v.day_hi, v.day_lo, v.month_lo))
]

december_after :
    (y d : ℕ)
    → IsDay y 12 d
    → days_in_month y 12 ≤ d
    → days_before (march_year (y + 1) 1) + march_day 1 1
      ≡ days_before (march_year y 12) + march_day 12 d + 1
unfolding days_in_month
december_after y d v last = omega (
  arith,
  ap days_before {x = march_year (y + 1) 1} {y = y} (omega arith),
  ap days_before {x = march_year y 12} {y = y} (omega arith),
  v.day_lo,
)

year_after :
    (y m d : ℕ)
    → IsDay y m d
    → days_in_month y m ≤ d
    → 12 ≤ m
    → days_before (march_year (y + 1) 1) + march_day 1 1
      ≡ days_before (march_year y m) + march_day m d + 1
year_after y m d v last hi =
    let e : m ≡ 12 = omega (arith, v.month_hi) in
    subst
      (λ k.
        IsDay y k d
        → days_in_month y k ≤ d
        → days_before (march_year (y + 1) 1) + march_day 1 1
          ≡ days_before (march_year y k) + march_day k d + 1)
      (sym e) (december_after y d) v last

-- The day after a date has the next number, over the ends of months, years and centuries.
pub count-day_after : (c : CalendarDay) → IsCalendarDay c → count (day_after c) ≡ count c + 1
unfolding day_after count
count-day_after c v = ground (arith, month_after c.y c.m c.d v, year_after c.y c.m c.d v)

-- The code's number of a date of the calendar.
pub julian : CalendarDay → ℤ
julian c = get_julian_day_number (common_year c.y) (pos c.m) (pos c.d)

julian-count : (c : CalendarDay) → IsCalendarDay c → julian c ≡ pos (count c) -ℤ pos 32044
unfolding julian count
julian-count c v = get_julian_day_number-eq c.y c.m c.d v

-- Over the ends of months, years and centuries, the day after a date of the calendar is one too,
-- and its Julian day number is one more.
pub julian-day_after :
    (c : CalendarDay)
    → IsCalendarDay c
    → IsCalendarDay (day_after c) × (julian (day_after c) ≡ julian c +ℤ pos 1)
julian-day_after c v = (
  day_after-IsDay c v,
  rw (julian-count c v, julian-count (day_after c) (day_after-IsDay c v), count-day_after c v)
      (omega int_laws),
)

-- From the day 0 on the day of the week is from 0 to 6, and follows that of the day before.
pub week_day_cycle :
    (j : ℕ)
    → (w : ℕ) × (week_day (record { julian_day_number = pos j }) ≡ pos w)
      × (w < 7)
      × (week_day (record { julian_day_number = pos (j + 1) }) ≡ pos (if w == 6 then 0 else w + 1))
unfolding week_day
week_day_cycle j =
    ((j + 1) % 7, simp (+ℤ-pos, %ℤ-pos), omega arith, simp (+ℤ-pos, %ℤ-pos) (ground arith))
