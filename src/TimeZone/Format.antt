-- ===== src/TimeZone/Format.antt =====
-- The format of tzfile(5), written, and how base/time_zone.cc reads each of its vectors.
use ccnet.Prelude.{
  ℕ, suc, ◌+◌, ◌-◌, ◌*◌, ◌/◌, ◌%◌, ◌≤◌, ◌<◌, ◌≡◌, refl, sym, ap, ◌∙◌, Bool, true, false, not, List,
  [], ◌∷◌, ◌++◌, append-nil, append_assoc, arith, ltb, leb, ◌==◌, if◌then◌else◌, leb_iff, length,
  take_prefix, drop_prefix, length-append,
}
use ccnet.Prelude.Int.{ℤ, pos, negsuc, pos_part, neg_part, ◌-ℤ◌, ltb_ℤ}
use ccnet.TimeZone.{LocalTime, Data}
use ccnet.TimeZone.File.{
  ◌>>=◌, read, thrown, undefined, Reader, read_bytes, int32_of, read_int32, read_uint8, read_each,
  push_localtime, read_localtimes,
}

-- The format, which is big-endian.
abbrev pub unsigned : ℤ → ℕ
unsigned z = pos_part z + (4294967296 - neg_part z) % 4294967296

abbrev pub write_int32 : ℤ → List ℕ
write_int32 z =
    unsigned z / 16777216
    ∷ unsigned z / 65536 % 256
    ∷ unsigned z / 256 % 256
    ∷ unsigned z % 256
    ∷ []

-- Four bytes for each of some numbers.
pub write_int32s : List ℤ → List ℕ
write_int32s [] = []
write_int32s (z ∷ zs) = write_int32 z ++ write_int32s zs

abbrev pub IsInt32 : ℤ → Type 0
IsInt32 z = (pos_part z < 2147483648) × (neg_part z ≤ 2147483648)

bytes_of :
    (u : ℕ)
    → u < 4294967296
    → 16777216 * (u / 16777216) + 65536 * (u / 65536 % 256) + 256 * (u / 256 % 256) + u % 256 ≡ u
bytes_of u h = omega arith

signed_of :
    (z : ℤ)
    → IsInt32 z
    → (if ltb (unsigned z) 2147483648 then pos (unsigned z) else pos (unsigned z) -ℤ pos 4294967296)
      ≡ z
unfolding ◌-ℤ◌
signed_of (pos a) h = ground arith
signed_of (negsuc a) h = ground arith

unsigned_below : (z : ℤ) → IsInt32 z → unsigned z < 4294967296
unsigned_below (pos a) h = omega (arith, h)
unsigned_below (negsuc a) h = omega (arith, h)

int32_of-write_int32 : (z : ℤ) → IsInt32 z → int32_of (write_int32 z) ≡ z
unfolding int32_of
int32_of-write_int32 z h =
    ap (λ u. if ltb u 2147483648 then pos u else pos u -ℤ pos 4294967296)
      (bytes_of (unsigned z) (unsigned_below z h))
    ∙ signed_of z h

at_least_4 : (n : ℕ) → leb 4 (suc (suc (suc (suc n)))) ≡ true
at_least_4 n = ground arith

pub read_int32-write_int32 :
    (z : ℤ) (rest : List ℕ) (zone : Data)
    → IsInt32 z
    → read_int32 (write_int32 z ++ rest) zone ≡ read z rest zone
unfolding read_int32
read_int32-write_int32 z rest zone h =
    rw (at_least_4 (length rest)) (ap (λ i. read i rest zone) (int32_of-write_int32 z h))

-- The vectors of the times and of the indices.
unfoldable pub AreInt32 : List ℤ → Type 0
AreInt32 [] = Unit {0}
AreInt32 (z ∷ zs) = IsInt32 z × AreInt32 zs

-- What follows a call that returned.
pub after :
    {A B : Type 0} (m : Reader A) (f : A → Reader B) {a : A} {bytes rest : List ℕ} {zone new : Data}
    → m bytes zone ≡ read a rest new
    → (m >>= f) bytes zone ≡ f a rest new
unfolding ◌>>=◌
after m f h =
    ap
      (λ r. elim r [
        | read a rest new ↦ f a rest new
        | thrown new ↦ thrown new
        | undefined ↦ undefined
      ])
      h

pub read_each-write_int32s :
    (zs : List ℤ) (rest : List ℕ) (zone : Data)
    → AreInt32 zs
    → read_each read_int32 (length zs) (write_int32s zs ++ rest) zone ≡ read zs rest zone
unfolding read_each AreInt32 write_int32s
read_each-write_int32s [] rest zone h = refl
read_each-write_int32s (z ∷ zs) rest zone (h, hs) =
    after _ _ (read_int32-write_int32 z (write_int32s zs ++ rest) zone h)
    ∙ after _ _ (read_each-write_int32s zs rest zone hs)

pub read_each-bytes :
    (xs rest : List ℕ) (zone : Data)
    → read_each read_uint8 (length xs) (xs ++ rest) zone ≡ read xs rest zone
unfolding read_each read_uint8
read_each-bytes [] rest zone = refl
read_each-bytes (x ∷ xs) rest zone = after _ _ refl ∙ after _ _ (read_each-bytes xs rest zone)

pub not_negative : (k : ℕ) → ltb_ℤ (pos k) (pos 0) ≡ false
not_negative k = ground arith

pub read_bytes_append :
    (xs rest : List ℕ) (zone : Data)
    → read_bytes (pos (length xs)) (xs ++ rest) zone ≡ read xs rest zone
unfolding read_bytes
read_bytes_append xs rest zone =
    simp
      (
        not_negative (length xs),
        (leb_iff (length xs) (length (xs ++ rest))).1 (omega (arith, length-append xs rest)),
        take_prefix (length xs) xs rest refl,
        drop_prefix (length xs) xs rest refl,
      )
      refl

-- The local times, each of four bytes and two.
pub write_localtimes : List LocalTime → List ℕ
write_localtimes [] = []
write_localtimes (l ∷ ls) =
    write_int32 l.gmt_offset ++ ((if l.is_dst then 1 else 0) ∷ l.arrb_idx ∷ write_localtimes ls)

unfoldable pub AreStored : List LocalTime → Type 0
AreStored [] = Unit {0}
AreStored (l ∷ ls) = IsInt32 l.gmt_offset × AreStored ls

flag : (b : Bool) → not ((if b then 1 else 0) == 0) ≡ b
flag true = refl
flag false = refl

pub read_localtimes-write_localtimes :
    (ls : List LocalTime) (rest : List ℕ) (zone : Data)
    → AreStored ls
    → read_localtimes (length ls) (write_localtimes ls ++ rest) zone
      ≡ read tt rest (record zone { localtimes = zone.localtimes ++ ls })
unfolding read_localtimes AreStored write_localtimes push_localtime read_uint8
read_localtimes-write_localtimes [] rest zone h =
    ap (λ l. read tt rest (record zone { localtimes = l })) (sym (append-nil zone.localtimes))
read_localtimes-write_localtimes (l ∷ ls) rest zone (h, hs) =
    after _ _ (read_int32-write_int32 l.gmt_offset _ zone h)
    ∙ after _ _ refl
    ∙ after _ _ refl
    ∙ after _ _ refl
    ∙ read_localtimes-write_localtimes ls rest _ hs
    ∙ ap
        (λ d.
          read tt rest (record zone {
            localtimes = (zone.localtimes ++ (record l { is_dst = d } ∷ [])) ++ ls;
          }))
        (flag l.is_dst)
    ∙ ap (λ k. read tt rest (record zone { localtimes = k }))
        (append_assoc zone.localtimes (l ∷ []) ls)
