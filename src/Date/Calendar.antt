-- ===== src/Date/Calendar.antt =====
-- The days of the calendar counted from the first of March, on numbers: years begin in March, so
-- that a leap day is the last of its year, and month 0 is March.
use native.Mathlib.Decide.{dec_lt}
use ccnet.Prelude.{
  ℕ, ◌+◌, ◌-◌, ◌*◌, ◌/◌, ◌%◌, ◌≤◌, ◌<◌, ◌≡◌, refl, Bool, arith, ◌==◌, if◌then◌else◌,
}

-- Days before the year `y`.
unfoldable pub days_before : ℕ → ℕ
days_before y = y * 365 + y / 4 - y / 100 + y / 400

-- Days before the month `m` of a year.
abbrev pub month_start : ℕ → ℕ
month_start m = (153 * m + 2) / 5

-- What the code finds of a day number: the year, the day of that year, its month and day.
abbrev pub century : ℕ → ℕ
century a = (4 * a + 3) / 146097

abbrev pub in_century : ℕ → ℕ
in_century a = a - century a * 146097 / 4

abbrev pub year_of : ℕ → ℕ
year_of a = (4 * in_century a + 3) / 1461

abbrev pub in_year : ℕ → ℕ
in_year a = in_century a - 1461 * year_of a / 4

abbrev pub month_of : ℕ → ℕ
month_of e = (5 * e + 2) / 153

module _ (y t : ℕ) (inside : days_before y + t < days_before (y + 1)) where
  abbrev a : ℕ
  a = days_before y + t

  century_lem : century a ≡ y / 100
  unfolding days_before
  century_lem = omega arith

  in_century_lem : in_century a ≡ 365 * (y % 100) + y % 100 / 4 + t
  unfolding days_before
  in_century_lem = rw century_lem (omega arith)

  year_of_lem : year_of a ≡ y % 100
  unfolding days_before
  year_of_lem = rw in_century_lem (omega arith)

  pub in_year_lem : in_year a ≡ t
  in_year_lem = rw (year_of_lem, in_century_lem) (omega arith)

  pub full_year-eq : century a * 100 + year_of a ≡ y
  full_year-eq = omega (arith, century_lem, year_of_lem)

pub month_of_lem :
    (m k : ℕ) → m < 12 → month_start m + k < month_start (m + 1) → month_of (month_start m + k) ≡ m
month_of_lem m k h fits = omega arith

-- The Gregorian calendar, by years from January. A year is counted from 4801 BC, whose leap years
-- are those of the common count, as 4800 is a multiple of 400.
unfoldable pub is_leap : ℕ → Bool
is_leap y = if y % 100 == 0 then y % 400 == 0 else y % 4 == 0

-- Long and short months alternate, up to July and again from August.
unfoldable pub days_in_month : ℕ → ℕ → ℕ
days_in_month y m = if m == 2 then (if is_leap y then 29 else 28) else 30 + (m + m / 8) % 2

pub record IsDay (y m d : ℕ) : Type 0 where
  pub some_year : 1 ≤ y
  pub month_lo : 1 ≤ m
  pub month_hi : m ≤ 12
  pub day_lo : 1 ≤ d
  pub day_hi : d ≤ days_in_month y m

-- The year from March, the month of it and the day of it.
abbrev pub march_year : ℕ → ℕ → ℕ
march_year y m = y - (14 - m) / 12

abbrev pub march_month : ℕ → ℕ
march_month m = m + 12 * ((14 - m) / 12) - 3

abbrev pub march_day : ℕ → ℕ → ℕ
march_day m d = month_start (march_month m) + (d - 1)

pub march_inside :
    (y m d : ℕ)
    → IsDay y m d
    → days_before (march_year y m) + march_day m d < days_before (march_year y m + 1)
unfolding days_before days_in_month is_leap
march_inside y m d v = ground arith

pub march_fits : (y m d : ℕ) → IsDay y m d → march_day m d < month_start (march_month m + 1)
unfolding days_in_month is_leap
march_fits y m d v = ground arith

-- Every day number is that of a day of some year from March.
abbrev pub full_year : ℕ → ℕ
full_year a = century a * 100 + year_of a

in_century_bound : (a : ℕ) → in_century a ≤ 36523 + ((century a + 1) / 4 - century a / 4)
in_century_bound a = omega arith

year_of_bound : (a : ℕ) → year_of a < 100
year_of_bound a = omega (arith, in_century_bound a)

pub days_before-full_year : (a : ℕ) → days_before (full_year a) + in_year a ≡ a
unfolding days_before
days_before-full_year a =
    split (century a) (in_century a) (year_of a) (omega arith) (year_of_bound a) (omega arith)
  where
    split :
        (c r d : ℕ)
        → c * 146097 / 4 + r ≡ a
        → d < 100
        → 1461 * d / 4 ≤ r
        → (c * 100 + d) * 365
            + (c * 100 + d) / 4
            - (c * 100 + d) / 100
            + (c * 100 + d) / 400
            + (r - 1461 * d / 4)
          ≡ a
    split c r d e h k = omega arith

pub in_year_inside : (a : ℕ) → days_before (full_year a) + in_year a < days_before (full_year a + 1)
unfolding days_before
in_year_inside a =
    split (century a) (in_century a) (year_of a) (in_century_bound a) (year_of_bound a)
      (omega arith)
  where
    split :
        (c r d : ℕ)
        → r ≤ 36523 + ((c + 1) / 4 - c / 4)
        → d < 100
        → 4 * r + 3 < 1461 * (d + 1)
        → (c * 100 + d) * 365
            + (c * 100 + d) / 4
            - (c * 100 + d) / 100
            + (c * 100 + d) / 400
            + (r - 1461 * d / 4)
          < (c * 100 + d + 1) * 365
            + (c * 100 + d + 1) / 4
            - (c * 100 + d + 1) / 100
            + (c * 100 + d + 1) / 400
    split c r d e h k = omega arith

abbrev pub found_month : ℕ → ℕ
found_month t = month_of t + 3 - 12 * (month_of t / 10)

abbrev pub found_day : ℕ → ℕ
found_day t = t - month_start (month_of t) + 1

pub year_length :
    (y : ℕ) → days_before (y + 1) ≡ days_before y + (if is_leap (y + 1) then 366 else 365)
unfolding days_before is_leap
year_length y = ground arith

month_length :
    (y m : ℕ)
    → m < 11
    → days_in_month y (m + 3 - 12 * (m / 10)) ≡ month_start (m + 1) - month_start m
unfolding days_in_month
month_length y m h = ground arith

pub february_length : (y : ℕ) → days_in_month y 2 ≡ (if is_leap y then 29 else 28)
unfolding days_in_month
february_length y = refl

-- The day of a year from March is a day of the calendar.
found_day_hi :
    (y m t : ℕ)
    → m < 12
    → t < month_start (m + 1)
    → days_before y + t < days_before (y + 1)
    → t - month_start m + 1 ≤ days_in_month (y + m / 10) (m + 3 - 12 * (m / 10))
found_day_hi y m t lt hi inside = elim (dec_lt m 11) [
  | yes h ↦ omega (arith, month_length (y + m / 10) m h)
  | no h ↦
      let e : m ≡ 11 = omega arith in
      rw e (rw (february_length (y + 1)) (ground (arith, year_length y)))
]

pub in_year_short : (y t : ℕ) → days_before y + t < days_before (y + 1) → t < 366
in_year_short y t inside = ground (arith, year_length y)

pub found-IsDay :
    (y t : ℕ)
    → 1 ≤ y
    → days_before y + t < days_before (y + 1)
    → IsDay (y + month_of t / 10) (found_month t) (found_day t)
found-IsDay y t h inside = record {
  some_year = omega arith;
  month_lo = omega (arith, short);
  month_hi = omega (arith, short);
  day_lo = omega arith;
  day_hi = found_day_hi y (month_of t) t (omega (arith, short)) (omega arith) inside;
}
  where
    short : t < 366
    short = in_year_short y t inside
