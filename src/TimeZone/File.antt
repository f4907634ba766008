-- ===== src/TimeZone/File.antt =====
-- base/time_zone.cc: the reader of a zone file. The file is its bytes, or `none` where it cannot be
-- opened; what was put into the data before a `logic_error` stays there.
use ccnet.Prelude.{
  ℕ, zero, suc, ◌+◌, ◌*◌, Bool, true, false, not, ◌&&◌, Option, none, some, List, [], ◌∷◌, ◌++◌,
  ltb, leb, ◌==◌, if◌then◌else◌, length, get_elem?, get_or, take, drop,
}
use ccnet.Prelude.Int.{ℤ, pos, pos_part, ◌+ℤ◌, ◌-ℤ◌, ltb_ℤ}
use ccnet.Prelude.Outcome.{Outcome, ok, assert_failed, length_error}
use ccnet.TimeZone.{LocalTime, Data}

-- A call that returned, one that threw a `logic_error`, and one that C++ leaves undefined.
pub data Reading (A : Type 0) : Type 0 where
  read : A → List ℕ → Data → Reading A
  thrown : Data → Reading A
  undefined : Reading A

-- Calls on the rest of the file and on the data.
abbrev pub Reader : Type 0 → Type 0
Reader A = List ℕ → Data → Reading A

infixl 5 ◌>>=◌ ◌>>◌
unfoldable pub ◌>>=◌ : {A B : Type 0} → Reader A → (A → Reader B) → Reader B
(m >>= f) bytes zone = elim (m bytes zone) [
  | read a rest new ↦ f a rest new
  | thrown new ↦ thrown new
  | undefined ↦ undefined
]

abbrev pub ◌>>◌ : {B : Type 0} → Reader (Unit {0}) → Reader B → Reader B
m >> k = m >>= λ _. k

abbrev pub return : {A : Type 0} → A → Reader A
return a bytes zone = read a bytes zone

abbrev pub throw_error : {A : Type 0} → Reader A
throw_error bytes zone = thrown zone

-- An array of negative size is undefined.
unfoldable pub read_bytes : ℤ → Reader (List ℕ)
read_bytes n bytes zone =
    if ltb_ℤ n (pos 0)
    then undefined
    else if leb (pos_part n) (length bytes)
    then read (take (pos_part n) bytes) (drop (pos_part n) bytes) zone
    else thrown zone

-- `be32toh` of four bytes, as a signed number of 32 bits.
unfoldable pub int32_of : List ℕ → ℤ
int32_of bytes =
    let u =
      16777216 * get_or bytes 0 0
      + 65536 * get_or bytes 1 0
      + 256 * get_or bytes 2 0
      + get_or bytes 3 0 in
    if ltb u 2147483648 then pos u else pos u -ℤ pos 4294967296

unfoldable pub read_int32 : Reader ℤ
read_int32 bytes zone =
    if leb 4 (length bytes) then read (int32_of (take 4 bytes)) (drop 4 bytes) zone else thrown zone

unfoldable pub read_uint8 : Reader ℕ
read_uint8 [] zone = thrown zone
read_uint8 (b ∷ bytes) zone = read b bytes zone

-- The two loops that fill a vector.
unfoldable pub read_each : {A : Type 0} → Reader A → ℕ → Reader (List A)
read_each one zero = return []
read_each one (suc n) = do x ← one; xs ← read_each one n; return (x ∷ xs)

unfoldable pub push_localtime : LocalTime → Reader (Unit {0})
push_localtime l bytes zone =
    read tt bytes (record zone { localtimes = zone.localtimes ++ (l ∷ []) })

unfoldable pub read_localtimes : ℕ → Reader (Unit {0})
read_localtimes zero = return tt
read_localtimes (suc n) = do
  gmtoff ← read_int32
  isdst ← read_uint8
  abbrind ← read_uint8
  push_localtime (record { gmt_offset = gmtoff; is_dst = not (isdst == 0); arrb_idx = abbrind })
  read_localtimes n

-- An index outside the local times is undefined.
unfoldable pub push_transition : ℤ → ℕ → Reader (Unit {0})
push_transition t i bytes zone = elim (get_elem? zone.localtimes i) [
  | none ↦ undefined
  | some l ↦ read tt bytes (record zone {
    transitions =
        zone.transitions
        ++ (record { gmt_time = t; local_time = t +ℤ l.gmt_offset; localtime_idx = i } ∷ []);
  })
]

-- Both vectors have `timecnt` entries.
unfoldable pub push_transitions : List ℤ → List ℕ → Reader (Unit {0})
push_transitions [] indices = return tt
push_transitions (t ∷ ts) [] = return tt
push_transitions (t ∷ ts) (i ∷ indices) = push_transition t i >> push_transitions ts indices

unfoldable pub set_abbreviation : List ℕ → Reader (Unit {0})
set_abbreviation text bytes zone = read tt bytes (record zone { abbreviation = text })

abbrev pub magic : List ℕ
magic = 84 ∷ 90 ∷ 105 ∷ 102 ∷ []

abbrev pub same : List ℕ → List ℕ → Bool
same [] [] = true
same [] (_ ∷ _) = false
same (_ ∷ _) [] = false
same (x ∷ xs) (y ∷ ys) = (x == y) && same xs ys

abbrev pub unless_error : Bool → Reader (Unit {0})
unless_error true = return tt
unless_error false = throw_error

-- The header, up to the counts.
unfoldable pub read_head : Reader (Unit {0})
read_head = do
  head ← read_bytes (pos 4)
  unless_error (same head magic)
  version ← read_bytes (pos 1)
  reserved ← read_bytes (pos 15)
  return tt

-- What stands between the counts and the end. A negative `timecnt` makes `reserve` throw a
-- `length_error`, which is a `logic_error`.
unfoldable pub read_body : ℤ → ℤ → ℤ → Reader (Unit {0})
read_body timecnt typecnt charcnt = do
  unless_error (not (ltb_ℤ timecnt (pos 0)))
  trans ← read_each read_int32 (pos_part timecnt)
  localtimes ← read_each read_uint8 (pos_part timecnt)
  read_localtimes (pos_part typecnt)
  push_transitions trans localtimes
  text ← read_bytes charcnt
  set_abbreviation text

unfoldable pub read_zone : Reader (Unit {0})
read_zone = do
  read_head
  isgmtcnt ← read_int32
  isstdcnt ← read_int32
  leapcnt ← read_int32
  timecnt ← read_int32
  typecnt ← read_int32
  charcnt ← read_int32
  read_body timecnt typecnt charcnt

-- The exception is caught, and the result is true in any case.
abbrev pub caught : Reading (Unit {0}) → Outcome (Bool × Data)
caught (read _ _ zone) = ok (true, zone)
caught (thrown zone) = ok (true, zone)
caught undefined = assert_failed

unfoldable pub read_time_zone_file : Option (List ℕ) → Data → Outcome (Bool × Data)
read_time_zone_file none zone = ok (true, zone)
read_time_zone_file (some bytes) zone = caught (read_zone bytes zone)

abbrev pub no_data : Data
no_data = record { transitions = []; localtimes = []; abbreviation = [] }

-- `TimeZone(const char*)`, where a result of false drops the data.
abbrev pub kept : Outcome (Bool × Data) → Outcome (Option Data)
kept (ok (success, zone)) = ok (if success then some zone else none)
kept assert_failed = assert_failed
kept length_error = length_error

unfoldable pub from_file : Option (List ℕ) → Outcome (Option Data)
from_file file = kept (read_time_zone_file file no_data)
