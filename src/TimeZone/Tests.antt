-- ===== src/TimeZone/Tests.antt =====
-- Broken-down times of known seconds, and the theorem at the second before 1970.
use ccnet.Prelude.{◌≡◌, refl, true}
use ccnet.Prelude.Int.{pos, negsuc, int_laws, ◌+ℤ◌, ◌-ℤ◌, ◌*ℤ◌, ◌/ℤ◌, ◌%ℤ◌, to_int}
use ccnet.Date.{get_julian_day_number, get_year_month_day, from_ymd, year_month_day, week_day}
use ccnet.TimeZone.{to_utc_time, from_utc_time, split_days, fill_hms}
use ccnet.TimeZone.Utc.{from_utc_time-to_utc_time}

-- The second before 1970 is the last of 1969, a Wednesday and the 365th day of its year.
before_epoch :
    ((to_utc_time true (negsuc 0)).tm_sec ≡ pos 59)
    × ((to_utc_time true (negsuc 0)).tm_year ≡ pos 69)
    × ((to_utc_time true (negsuc 0)).tm_wday ≡ pos 3)
    × ((to_utc_time true (negsuc 0)).tm_yday ≡ pos 364)
unfolding to_utc_time split_days fill_hms year_month_day from_ymd get_julian_day_number
    get_year_month_day week_day ◌+ℤ◌ ◌-ℤ◌ ◌*ℤ◌ ◌/ℤ◌ ◌%ℤ◌ to_int
before_epoch = (refl, refl, refl, refl)

from_utc_time-to_utc_time_example : from_utc_time (to_utc_time true (negsuc 0)) ≡ negsuc 0
from_utc_time-to_utc_time_example =
    from_utc_time-to_utc_time true (negsuc 0) (omega int_laws, omega int_laws)
