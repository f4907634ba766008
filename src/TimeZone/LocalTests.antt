-- ===== src/TimeZone/LocalTests.antt =====
-- A zone with one change, an hour later from the second 1000 on, its file, and the theorems at them.
use ccnet.Prelude.{
  ℕ, ◌≡◌, ◌⊎◌, ◌≤◌, refl, Bool, true, false, none, some, [], ◌∷◌, get_elem?, arith, zero, suc,
}
use ccnet.Prelude.Outcome.{ok, assert_failed}
use ccnet.Prelude.Int.{ℤ, pos, ◌+ℤ◌, ◌<ℤ◌}
use ccnet.TimeZone.{Transition, LocalTime, Data, Tm, find_localtime, localtime_at}
use ccnet.TimeZone.Bound.{time_of, IsSorted}
use ccnet.TimeZone.Search.{Latest, find_localtime-Latest}
use ccnet.TimeZone.Local.{LocalTm, to_local_time, from_local_time}
use ccnet.TimeZone.LocalTrip.{from_local_time-to_local_time}
use ccnet.TimeZone.File.{no_data, read_time_zone_file, from_file}
use ccnet.TimeZone.Format.{AreInt32, AreStored}
use ccnet.TimeZone.FileTrip.{
  ZoneFile, AreMade, IsWritten, write_zone, read_time_zone_file-write_zone,
}
use ccnet.TimeZone.FileError.{IsNoZone, from_file-to_local_time}

abbrev change : Transition
change = record { gmt_time = pos 1000; local_time = pos 4600; localtime_idx = 1 }

abbrev winter : LocalTime
winter = record { gmt_offset = pos 0; is_dst = false; arrb_idx = 0 }

abbrev summer : LocalTime
summer = record { gmt_offset = pos 3600; is_dst = true; arrb_idx = 4 }

abbrev zone : Data
zone = record {
  transitions = change ∷ [];
  localtimes = winter ∷ summer ∷ [];
  abbreviation = 71 ∷ 77 ∷ 84 ∷ 0 ∷ 66 ∷ 83 ∷ 84 ∷ 0 ∷ [];
}

sorted : (gmt : Bool) → IsSorted gmt zone.transitions
unfolding IsSorted
sorted gmt i zero t u h e f = absurd (omega arith)
sorted gmt i (suc j) t u h e f = absurd (ground (arith, f))

only : (j : ℕ) (u : Transition) → get_elem? zone.transitions j ≡ some u → j ≤ 0
only zero u e = omega arith
only (suc j) u e = absurd (ground (arith, e))

abbrev sentry : Transition
sentry = record { gmt_time = pos 2000; local_time = pos 0; localtime_idx = 0 }

find_localtime-Latest_example :
    (((j : ℕ) (u : Transition)
        → get_elem? zone.transitions j ≡ some u
        → time_of true sentry <ℤ time_of true u)
      × (find_localtime zone sentry true ≡ localtime_at zone 0))
    ⊎ Latest zone sentry true (find_localtime zone sentry true)
find_localtime-Latest_example = find_localtime-Latest zone sentry true (sorted true)

-- A broken-down time that keeps the seconds together.
abbrev broken_down : ℤ → Tm
broken_down z = record {
  tm_sec = z;
  tm_min = pos 0;
  tm_hour = pos 0;
  tm_year = pos 0;
  tm_mon = pos 0;
  tm_mday = pos 0;
  tm_wday = pos 0;
  tm_yday = pos 0;
}

abbrev put_together : Tm → ℤ
put_together tm = tm.tm_sec

from_local_time-to_local_time_example :
    (r : LocalTm) × (to_local_time broken_down (some zone) (pos 2000) ≡ ok r)
    × (from_local_time broken_down put_together (some zone) r ≡ ok (pos 2000))
unfolding localtime_at ◌+ℤ◌
from_local_time-to_local_time_example =
    from_local_time-to_local_time broken_down put_together (λ z. refl) zone (sorted true)
      (sorted false) (pos 2000) 0 change summer
      (record { entry_law = refl; not_after = omega arith; others = λ j u e h. only j u e }) refl
      (record { entry_law = refl; not_after = omega arith; others = λ j u e h. only j u e })
      (omega arith)

abbrev file : ZoneFile
file = record {
  version = 50;
  reserved = 0 ∷ 0 ∷ 0 ∷ 0 ∷ 0 ∷ 0 ∷ 0 ∷ 0 ∷ 0 ∷ 0 ∷ 0 ∷ 0 ∷ 0 ∷ 0 ∷ 0 ∷ [];
  isgmtcnt = pos 0;
  isstdcnt = pos 0;
  leapcnt = pos 0;
  changes = record { time = pos 1000; index = 1 } ∷ [];
  localtimes = zone.localtimes;
  abbreviation = zone.abbreviation;
}

file-IsWritten : IsWritten file zone.transitions
unfolding AreInt32 AreStored AreMade ◌+ℤ◌
file-IsWritten = record {
  reserved_law = refl;
  counts_law = ((omega arith, omega arith), (omega arith, omega arith), (omega arith, omega arith));
  changes_law = omega arith;
  types_law = omega arith;
  text_law = omega arith;
  times_law = ((omega arith, omega arith), tt);
  stored_law = ((omega arith, omega arith), ((omega arith, omega arith), tt));
  made_law = (refl, refl);
}

read_time_zone_file-write_zone_example :
    read_time_zone_file (some (write_zone file [])) no_data ≡ ok (true, zone)
read_time_zone_file-write_zone_example =
    read_time_zone_file-write_zone file zone.transitions [] file-IsWritten

no_file : IsNoZone none
unfolding IsNoZone
no_file = tt

from_file-to_local_time_example :
    (from_file none ≡ ok (some no_data))
    × (to_local_time broken_down (some no_data) (pos 2000) ≡ assert_failed)
from_file-to_local_time_example = from_file-to_local_time broken_down none (pos 2000) no_file
