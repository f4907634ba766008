-- ===== src/Date/Tests.antt =====
-- Julian day numbers of known dates, and the theorems at dates of the calendar.
use ccnet.Prelude.{ℕ, ◌≡◌, refl, arith}
use ccnet.Prelude.Int.{pos, ◌*ℤ◌, ◌/ℤ◌, ◌+ℤ◌, ◌-ℤ◌, ◌%ℤ◌}
use ccnet.Date.Ints.{AreInts}
use ccnet.Date.{
  get_julian_day_number, get_year_month_day, julian_day_number_ints, year_month_day_ints, from_ymd,
  from_tm, week_day,
}
use ccnet.Date.Calendar.{IsDay, days_before, days_in_month, is_leap}
use ccnet.Date.RoundTrip.{
  date, common_year, get_year_month_day-get_julian_day_number,
  get_julian_day_number-get_year_month_day,
}
use ccnet.Date.Successor.{CalendarDay, IsCalendarDay, day_after, julian, julian-day_after}

-- 1970-01-01 is day 2440588, a Thursday, and 2008-02-29 is a Friday.
epoch :
    (get_julian_day_number (pos 1970) (pos 1) (pos 1) ≡ pos 2440588)
    × (week_day (from_ymd (pos 1970) (pos 1) (pos 1)) ≡ pos 4)
    × (week_day (from_tm (pos 108) (pos 1) (pos 29)) ≡ pos 5)
unfolding get_julian_day_number week_day from_ymd from_tm ◌-ℤ◌ ◌+ℤ◌ ◌/ℤ◌ ◌*ℤ◌ ◌%ℤ◌
epoch = (refl, refl, refl)

abbrev leap_day : CalendarDay
leap_day = record { y = 6800; m = 2; d = 29 }

leap_day-IsDay : IsCalendarDay leap_day
unfolding is_leap
leap_day-IsDay = record {
  some_year = omega arith;
  month_lo = omega arith;
  month_hi = omega arith;
  day_lo = omega arith;
  day_hi = unfold days_in_month in omega arith;
}

get_year_month_day-get_julian_day_number_example :
    let j = get_julian_day_number (common_year 6800) (pos 2) (pos 29) in
    (get_year_month_day j ≡ date 6800 2 29)
    × AreInts (julian_day_number_ints (common_year 6800) (pos 2) (pos 29))
    × AreInts (year_month_day_ints j)
unfolding days_before
get_year_month_day-get_julian_day_number_example =
    get_year_month_day-get_julian_day_number 6800 2 29 leap_day-IsDay (omega arith)

get_julian_day_number-get_year_month_day_example :
    (y m d : ℕ) × IsDay y m d
    × (get_year_month_day (pos 2472632 -ℤ pos 32044) ≡ date y m d)
    × (get_julian_day_number (common_year y) (pos m) (pos d) ≡ pos 2472632 -ℤ pos 32044)
    × AreInts (year_month_day_ints (pos 2472632 -ℤ pos 32044))
    × AreInts (julian_day_number_ints (common_year y) (pos m) (pos d))
get_julian_day_number-get_year_month_day_example =
    get_julian_day_number-get_year_month_day 2472632 (omega arith) (omega arith)

julian-day_after_example :
    IsCalendarDay (day_after leap_day) × (julian (day_after leap_day) ≡ julian leap_day +ℤ pos 1)
julian-day_after_example = julian-day_after leap_day leap_day-IsDay
