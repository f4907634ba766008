-- ===== src/Date/RoundTrip.antt =====
-- base/date.cc: day numbers as dates, and dates as day numbers.
use ccnet.Prelude.{ℕ, zero, suc, ◌+◌, ◌-◌, ◌*◌, ◌/◌, ◌≤◌, ◌<◌, ◌≡◌, sym, ap, ap₂, subst, ◌∙◌, arith}
use ccnet.Prelude.Int.{ℤ, pos, ◌+ℤ◌, ◌-ℤ◌, -ℤ-pos, pos_laws, -ℤ-+ℤ, int_laws, shift_sum}
use ccnet.Date.{
  YearMonthDay, get_julian_day_number, get_year_month_day, julian_day_number_ints,
  year_month_day_ints,
}
use ccnet.Date.Ints.{
  AreInts, last_day_count, julian_day_number_ints-AreInts, year_month_day_ints-AreInts,
}
use ccnet.Date.Calendar.{
  in_year_short, month_of_lem, march_fits, full_year-eq, in_year_lem, days_before-full_year,
  in_year_inside, found-IsDay, days_before, IsDay, march_year, march_month, march_day, march_inside,
  month_start, century, in_century, year_of, in_year, month_of, full_year, found_month, found_day,
}

-- The year that `Calendar` counts as `y`, from 4801 BC.
abbrev pub common_year : ℕ → ℤ
common_year y = pos y -ℤ pos 4800

-- The sum of the code, once the year and the month from March are known.
julian_sum :
    (y m d : ℕ)
    → 1 ≤ d
    → pos (d + (153 * m + 2) / 5 + y * 365 + y / 4) -ℤ pos (y / 100) +ℤ pos (y / 400) -ℤ pos 32045
      ≡ pos (days_before y + (month_start m + (d - 1))) -ℤ pos 32044
unfolding days_before
julian_sum y m d h =
    rw (-ℤ-pos (d + (153 * m + 2) / 5 + y * 365 + y / 4) (y / 100) (omega arith))
      (simp pos_laws (omega int_laws))

module _ (y m d : ℕ) (v : IsDay y m d) where
  abbrev pub day_count : ℕ
  day_count = days_before (march_year y m) + march_day m d

  pub get_julian_day_number-eq :
      get_julian_day_number (common_year y) (pos m) (pos d) ≡ pos day_count -ℤ pos 32044
  unfolding get_julian_day_number
  get_julian_day_number-eq =
      rw (-ℤ-pos 14 m (omega (arith, v.month_hi)), -ℤ-+ℤ)
        (simp
          (
            pos_laws,
            -ℤ-pos y ((14 - m) / 12) (omega (arith, v.some_year)),
            -ℤ-pos (m + 12 * ((14 - m) / 12)) 3 (omega (arith, v.month_lo, v.month_hi)),
          )
          (julian_sum (march_year y m) (march_month m) d v.day_lo))

-- What the code finds for the day `t` of the year `y` from March.
abbrev ymd : ℕ → ℕ → YearMonthDay
ymd y t = record {
  year = common_year (y + month_of t / 10);
  month = pos (found_month t);
  day = pos (found_day t);
}

pub decode : (a : ℕ) → get_year_month_day (pos a -ℤ pos 32044) ≡ ymd (full_year a) (in_year a)
unfolding get_year_month_day
decode a = rw -ℤ-+ℤ (
    simp (
      pos_laws,
      -ℤ-pos a (century a * 146097 / 4) (omega arith),
      -ℤ-pos (in_century a) (1461 * year_of a / 4) (omega arith),
      -ℤ-pos (month_of (in_year a) + 3) (12 * (month_of (in_year a) / 10)) (omega arith),
      -ℤ-pos (in_year a) (month_start (month_of (in_year a))) (omega arith),
      shift_sum,
    ))

abbrev pub date : ℕ → ℕ → ℕ → YearMonthDay
date y m d = record { year = common_year y; month = pos m; day = pos d }

date_eq : {y z m n d e : ℕ} → y ≡ z → m ≡ n → d ≡ e → date y m d ≡ date z n e
date_eq p q r = λ i. date (p i) (q i) (r i)

found_again :
    (y m d : ℕ)
    → IsDay y m d
    → get_year_month_day (get_julian_day_number (common_year y) (pos m) (pos d)) ≡ date y m d
found_again y m d v = rw (get_julian_day_number-eq y m d v) (
    decode (day_count y m d v)
    ∙ ap₂ ymd (full_year-eq (march_year y m) (march_day m d) (march_inside y m d v))
        (in_year_lem (march_year y m) (march_day m d) (march_inside y m d v))
    ∙ fields)
  where
    found : month_of (march_day m d) ≡ march_month m
    found =
        month_of_lem (march_month m) (d - 1) (omega (arith, v.month_lo, v.month_hi))
          (march_fits y m d v)

    fields : ymd (march_year y m) (march_day m d) ≡ date y m d
    fields = rw found (
        date_eq (omega (arith, v.month_lo, v.month_hi, v.some_year))
          (omega (arith, v.month_lo, v.month_hi)) (omega (arith, v.day_lo)))

-- A date of the calendar is found again from its Julian day number, and no `int` overflows on the way
-- to that number or back, up to the last day for which the code's `4 * a + 3` is an `int`.
pub get_year_month_day-get_julian_day_number :
    (y m d : ℕ) (v : IsDay y m d)
    → day_count y m d v ≤ last_day_count
    → let j = get_julian_day_number (common_year y) (pos m) (pos d) in
      (get_year_month_day j ≡ date y m d)
      × AreInts (julian_day_number_ints (common_year y) (pos m) (pos d))
      × AreInts (year_month_day_ints j)
get_year_month_day-get_julian_day_number y m d v h = (
  found_again y m d v,
  julian_day_number_ints-AreInts y m d v h,
  rw (get_julian_day_number-eq y m d v) (year_month_day_ints-AreInts (day_count y m d v) h),
)

full_year_pos : (y a : ℕ) → a < days_before (y + 1) → 366 ≤ a → 1 ≤ y
unfolding days_before
full_year_pos zero a h k = absurd (omega arith)
full_year_pos (suc y) a h k = omega arith

march_year_found : (y m : ℕ) → m < 12 → march_year (y + m / 10) (m + 3 - 12 * (m / 10)) ≡ y
march_year_found y m h = omega arith

march_day_found :
    (m t : ℕ)
    → m < 12
    → month_start m ≤ t
    → march_day (m + 3 - 12 * (m / 10)) (t - month_start m + 1) ≡ t
march_day_found m t h le =
    let e : march_month (m + 3 - 12 * (m / 10)) ≡ m = omega arith in rw e (omega arith)

module _ (a : ℕ) (late : 366 ≤ a) where
  abbrev year_found : ℕ
  year_found = full_year a + month_of (in_year a) / 10

  abbrev month_found : ℕ
  month_found = found_month (in_year a)

  abbrev day_found : ℕ
  day_found = found_day (in_year a)

  inside : days_before (full_year a) + in_year a < days_before (full_year a + 1)
  inside = in_year_inside a

  IsDay_found : IsDay year_found month_found day_found
  IsDay_found =
      found-IsDay (full_year a) (in_year a)
        (full_year_pos (full_year a) a (omega (arith, inside, days_before-full_year a)) late) inside

  short : month_of (in_year a) < 12
  short = omega (arith, in_year_short (full_year a) (in_year a) inside)

  day_count_found : day_count year_found month_found day_found IsDay_found ≡ a
  day_count_found =
      ap₂ (λ y t. days_before y + t) (march_year_found (full_year a) (month_of (in_year a)) short)
        (march_day_found (month_of (in_year a)) (in_year a) short (omega arith))
      ∙ days_before-full_year a

  -- Every Julian day number past the first year from March of 4801 BC, up to the last for which the
  -- code's `4 * a + 3` is an `int`, is that of the date found for it, which is a date of the calendar;
  -- and no `int` overflows on the way to that date or back.
  pub get_julian_day_number-get_year_month_day :
      a ≤ last_day_count
      → (y m d : ℕ) × IsDay y m d
        × (get_year_month_day (pos a -ℤ pos 32044) ≡ date y m d)
        × (get_julian_day_number (common_year y) (pos m) (pos d) ≡ pos a -ℤ pos 32044)
        × AreInts (year_month_day_ints (pos a -ℤ pos 32044))
        × AreInts (julian_day_number_ints (common_year y) (pos m) (pos d))
  get_julian_day_number-get_year_month_day h = (
    year_found,
    month_found,
    day_found,
    IsDay_found,
    decode a,
    get_julian_day_number-eq year_found month_found day_found IsDay_found
        ∙ ap (λ n. pos n -ℤ pos 32044) day_count_found,
    year_month_day_ints-AreInts a h,
    julian_day_number_ints-AreInts year_found month_found day_found IsDay_found
        (subst (λ n. n ≤ last_day_count) (sym day_count_found) h),
  )
