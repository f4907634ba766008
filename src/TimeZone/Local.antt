-- ===== src/TimeZone/Local.antt =====
-- base/time_zone.cc: seconds since 1970 as local time and back. `gmtime_r` and `timegm` of the C
-- library are parameters.
use ccnet.Prelude.{
  ℕ, Bool, true, false, not, ◌&&◌, Option, none, some, List, [], ◌∷◌, leb, if◌then◌else◌, length,
  drop,
}
use ccnet.Prelude.Outcome.{Outcome, ok, assert_failed, ◌>>=◌, ◌>>◌, assert}
use ccnet.Prelude.Int.{ℤ, pos, ◌+ℤ◌, ◌-ℤ◌, eqb_ℤ}
use ccnet.TimeZone.{LocalTime, Data, Tm, find_localtime}

-- `struct tm` with the fields that only local times fill; `tm_zone` is the text from there on.
pub record LocalTm : Type 0 where
  pub tm : Tm
  pub tm_isdst : Bool
  pub tm_gmtoff : ℤ
  pub tm_zone : List ℕ

-- `TimeZone(int, const char*)`: one local time, with no transition.
unfoldable pub fixed_zone : ℤ → List ℕ → Option Data
fixed_zone east_of_utc name = some (record {
  transitions = [];
  localtimes = record { gmt_offset = east_of_utc; is_dst = false; arrb_idx = 0 } ∷ [];
  abbreviation = name;
})

-- `*data_`, after the assertion that the pointer is not null.
abbrev data_of : Option Data → Outcome Data
data_of none = assert_failed
data_of (some zone) = ok zone

-- An index past the end of a string is undefined; it stands as a failed assertion.
unfoldable pub local_tm : (ℤ → Tm) → Data → ℤ → LocalTime → Outcome LocalTm
local_tm gmtime_r zone seconds local = do
  assert (leb local.arrb_idx (length zone.abbreviation))
  ok (record {
    tm = gmtime_r (seconds +ℤ local.gmt_offset);
    tm_isdst = local.is_dst;
    tm_gmtoff = local.gmt_offset;
    tm_zone = drop local.arrb_idx zone.abbreviation;
  })

unfoldable pub to_local_time : (ℤ → Tm) → Option Data → ℤ → Outcome LocalTm
to_local_time gmtime_r held seconds = do
  zone ← data_of held
  local ←
      find_localtime zone (record { gmt_time = seconds; local_time = pos 0; localtime_idx = 0 })
        true
  local_tm gmtime_r zone seconds local

-- The correction by an hour of a time marked as daylight saving that is none.
unfoldable pub corrected : LocalTm → LocalTm → ℤ → ℤ
corrected try_tm given seconds =
    if not try_tm.tm_isdst
      && (eqb_ℤ try_tm.tm.tm_hour given.tm.tm_hour && eqb_ℤ try_tm.tm.tm_min given.tm.tm_min)
    then seconds -ℤ pos 3600
    else seconds

unfoldable pub from_local_time : (ℤ → Tm) → (Tm → ℤ) → Option Data → LocalTm → Outcome ℤ
from_local_time gmtime_r timegm held given = do
  zone ← data_of held
  local ←
      find_localtime zone
        (record { gmt_time = pos 0; local_time = timegm given.tm; localtime_idx = 0 }) false
  seconds ← (elim given.tm_isdst [
    | true ↦ (do
      try_tm ← to_local_time gmtime_r held (timegm given.tm -ℤ local.gmt_offset)
      ok (corrected try_tm given (timegm given.tm)))
    | false ↦ ok (timegm given.tm)
  ])
  ok (seconds -ℤ local.gmt_offset)
