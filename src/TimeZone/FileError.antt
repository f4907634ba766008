-- ===== src/TimeZone/FileError.antt =====
-- base/time_zone.cc: what is left of a file that is no zone file.
use ccnet.Prelude.{
  ℕ, ◌+◌, ◌≤◌, ◌<◌, ◌≡◌, refl, ap, ◌∙◌, ◌⊎◌, inl, inr, Bool, true, false, Option, none, some, List,
  arith, ltb, leb, leb_iff, Bool-cases, length, take, drop, length-drop,
}
use ccnet.Prelude.Outcome.{ok, assert_failed}
use ccnet.Prelude.Int.{ℤ, pos}
use ccnet.TimeZone.{Data, Tm, find_localtime, localtime_at}
use ccnet.TimeZone.Local.{to_local_time}
use ccnet.TimeZone.File.{
  return, Reader, Reading, read, thrown, undefined, read_bytes, read_int32, int32_of, caught, kept,
  unless_error, magic, same, read_head, read_body, read_zone, read_time_zone_file, no_data,
  from_file,
}
use ccnet.TimeZone.File

-- A call that takes `k` bytes off the file, or throws and leaves the data as they were.
Consumes : {A : Type 0} → ℕ → Reader A → Type 0
Consumes {A = A} k m =
    (bytes : List ℕ) (zone : Data)
    → (m bytes zone ≡ thrown zone)
      ⊎ ((a : A) × (rest : List ℕ) × (m bytes zone ≡ read a rest zone)
          × (length rest + k ≡ length bytes))

-- On fewer than `n` bytes a call throws and leaves the data as they were.
IsShort : {A : Type 0} → ℕ → Reader A → Type 0
IsShort n m = (bytes : List ℕ) (zone : Data) → length bytes < n → m bytes zone ≡ thrown zone

module _ {A B : Type 0} (m : Reader A) (f : A → Reader B) where
  bind_thrown :
      (bytes : List ℕ) (zone new : Data)
      → m bytes zone ≡ thrown new
      → File.◌>>=◌ m f bytes zone ≡ thrown new
  unfolding File.◌>>=◌
  bind_thrown bytes zone new h =
      ap
        (λ r. elim r [
          | read a rest new ↦ f a rest new
          | thrown new ↦ thrown new
          | undefined ↦ undefined
        ])
        h

  bind_read :
      (bytes rest : List ℕ) (zone : Data) (a : A)
      → m bytes zone ≡ read a rest zone
      → File.◌>>=◌ m f bytes zone ≡ f a rest zone
  unfolding File.◌>>=◌
  bind_read bytes rest zone a h =
      ap
        (λ r. elim r [
          | read a rest new ↦ f a rest new
          | thrown new ↦ thrown new
          | undefined ↦ undefined
        ])
        h

  bind-IsShort :
      (k n : ℕ) → Consumes k m → ((a : A) → IsShort n (f a)) → IsShort (k + n) (File.◌>>=◌ m f)
  unfolding Consumes IsShort
  bind-IsShort k n c s bytes zone h = elim (c bytes zone) [
    | inl e ↦ bind_thrown bytes zone zone e
    | inr (a, rest, e, l) ↦ bind_read bytes rest zone a e ∙ s a rest zone (omega arith)
  ]

not_negative : (k : ℕ) → ltb (k + 0) 0 ≡ false
not_negative k = ground arith

read_bytes-Consumes : (n : ℕ) → Consumes n (read_bytes (pos n))
unfolding Consumes read_bytes
read_bytes-Consumes n bytes zone = elim (Bool-cases (leb n (length bytes))) [
  | inl e ↦ inr (
    take n bytes,
    drop n bytes,
    simp (e, not_negative n) refl,
    omega (arith, length-drop n bytes, (leb_iff n (length bytes)).0 e),
  )
  | inr e ↦ inl (simp (e, not_negative n) refl)
]

unless_error-Consumes : (b : Bool) → Consumes 0 (unless_error b)
unfolding Consumes
unless_error-Consumes true bytes zone = inr (tt, bytes, refl, omega arith)
unless_error-Consumes false bytes zone = inl refl

read_int32-Consumes : Consumes 4 read_int32
unfolding Consumes read_int32
read_int32-Consumes bytes zone = elim (Bool-cases (leb 4 (length bytes))) [
  | inl e ↦ inr (
    int32_of (take 4 bytes),
    drop 4 bytes,
    rw e refl,
    omega (arith, length-drop 4 bytes, (leb_iff 4 (length bytes)).0 e),
  )
  | inr e ↦ inl (rw e refl)
]

-- Nothing is shorter than no bytes.
anything-IsShort : {A : Type 0} (m : Reader A) → IsShort 0 m
unfolding IsShort
anything-IsShort m bytes zone h = absurd (omega arith)

bind-Consumes :
    {A B : Type 0} (m : Reader A) (f : A → Reader B) (k n : ℕ)
    → Consumes k m
    → ((a : A) → Consumes n (f a))
    → Consumes (k + n) (File.◌>>=◌ m f)
unfolding Consumes
bind-Consumes m f k n c d bytes zone = elim (c bytes zone) [
  | inl e ↦ inl (bind_thrown m f bytes zone zone e)
  | inr (a, rest, e, l) ↦ elim (d a rest zone) [
    | inl g ↦ inl (bind_read m f bytes rest zone a e ∙ g)
    | inr (b, end, g, o) ↦ inr (b, end, bind_read m f bytes rest zone a e ∙ g, omega arith)
  ]
]

return-Consumes : {A : Type 0} (a : A) → Consumes 0 (return a)
unfolding Consumes
return-Consumes a bytes zone = inr (a, bytes, refl, omega arith)

read_head-Consumes : Consumes 20 read_head
unfolding read_head
read_head-Consumes = bind-Consumes _ _ 4 16 (read_bytes-Consumes 4) (λ head.
    bind-Consumes _ _ 0 16 (unless_error-Consumes (same head magic)) (λ _.
      bind-Consumes _ _ 1 15 (read_bytes-Consumes 1)
        (λ v. bind-Consumes _ _ 15 0 (read_bytes-Consumes 15) (λ r. return-Consumes tt))))

read_zone-IsShort : IsShort 44 read_zone
unfolding read_zone
read_zone-IsShort = bind-IsShort _ _ 20 24 read_head-Consumes (λ _.
    bind-IsShort _ _ 4 20 read_int32-Consumes (λ a. bind-IsShort _ _ 4 16 read_int32-Consumes (λ b.
      bind-IsShort _ _ 4 12 read_int32-Consumes (λ c. bind-IsShort _ _ 4 8 read_int32-Consumes (λ d.
        bind-IsShort _ _ 4 4 read_int32-Consumes
          (λ e. bind-IsShort _ _ 4 0 read_int32-Consumes (λ g. anything-IsShort _)))))))

read_zone-thrown :
    (bytes : List ℕ)
    → 4 ≤ length bytes
    → same (take 4 bytes) magic ≡ false
    → read_zone bytes no_data ≡ thrown no_data
unfolding read_zone read_head read_bytes
read_zone-thrown bytes h e = bind_thrown _ _ bytes no_data no_data (
    bind_read _ _ bytes (drop 4 bytes) no_data (take 4 bytes)
      (rw ((leb_iff 4 (length bytes)).1 h) refl)
    ∙ bind_thrown _ _ (drop 4 bytes) no_data no_data
        (ap (λ b. unless_error b (drop 4 bytes) no_data) e))

-- A file that is missing, that ends in the header, or that begins with other bytes than TZif.
unfoldable pub IsNoZone : Option (List ℕ) → Type 0
IsNoZone none = Unit {0}
IsNoZone (some bytes) =
    (length bytes < 44) ⊎ ((4 ≤ length bytes) × (same (take 4 bytes) magic ≡ false))

read_time_zone_file-no_data :
    (file : Option (List ℕ)) → IsNoZone file → read_time_zone_file file no_data ≡ ok (true, no_data)
unfolding read_time_zone_file IsNoZone IsShort
read_time_zone_file-no_data none h = refl
read_time_zone_file-no_data (some bytes) (inl h) = ap caught (read_zone-IsShort bytes no_data h)
read_time_zone_file-no_data (some bytes) (inr (l, h)) = ap caught (read_zone-thrown bytes l h)

-- From a file that is missing, that ends in the header, or that begins with other bytes than TZif
-- the constructor makes a zone that counts as valid, and any time in that zone is undefined.
pub from_file-to_local_time :
    (gmtime_r : ℤ → Tm) (file : Option (List ℕ)) (seconds : ℤ)
    → IsNoZone file
    → (from_file file ≡ ok (some no_data))
      × (to_local_time gmtime_r (some no_data) seconds ≡ assert_failed)
unfolding from_file to_local_time find_localtime localtime_at
from_file-to_local_time gmtime_r file seconds h =
    (ap kept (read_time_zone_file-no_data file h), refl)
