-- ===== src/LogStream/Room.antt =====
-- base/log_stream.h and base/log_stream.cc: the room in the buffer of a stream.
use ccnet.Prelude.{
  take_all, take_prefix, length-write_at, take-append_ge, ℕ, ◌+◌, ◌^◌, ◌≤◌, ◌<◌, ◌≡◌, refl, sym, ap,
  ap₂, subst, ◌∙◌, inl, inr, Bool, true, false, some, List, [], ◌∷◌, ◌++◌, append-nil, append_assoc,
  arith, ltb, leb, if◌then◌else◌, ltb_iff, leb_iff, Bool-cases, length, take, drop, write_at,
  length-append, length-take,
}
use ccnet.Prelude.Outcome.{Outcome, ok, ◌>>=◌, ◌>>◌, assert}
use ccnet.Prelude.Int.{ℤ}
use ccnet.LogStream.{
  FixedBuffer, avail, to_string, store, add, append, convert, convert_hex, put_text, format_integer,
  put_pointer, put_double, put_fmt, fmt, fmt_size,
}
use ccnet.LogStream.Digits.{size, hex_value}
use ccnet.LogStream.Numerals.{Shows, read_integer, read_natural, convert-Shows, convert_hex-Shows}

-- `cur_` points into the array or at its end.
abbrev pub IsWithin : FixedBuffer → Type 0
IsWithin b = b.cur ≤ length b.chars

-- The call returned, the size of the array is the same, and `text` was added, where it fits.
unfoldable pub Adds : FixedBuffer → Bool → List ℕ → Outcome FixedBuffer → Type 0
Adds b fits text o =
    (c : FixedBuffer) × (o ≡ ok c)
    × IsWithin c
    × (length c.chars ≡ length b.chars)
    × (to_string c ≡ to_string b ++ (if fits then text else []))

take-write_at :
    (i : ℕ) (text tail xs : List ℕ)
    → i ≤ length xs
    → take (i + length text) (write_at i (text ++ tail) xs) ≡ take i xs ++ text
take-write_at i text tail xs h =
    take-append_ge (i + length text) (take i xs) _ (omega (arith, front))
    ∙ ap₂ (λ n l. take i xs ++ take n l) {v = text ++ (tail ++ rest)} (omega (arith, front))
        (append_assoc text tail rest)
    ∙ ap (λ l. take i xs ++ l) (take_prefix (length text) text (tail ++ rest) refl)
  where
    rest : List ℕ
    rest = drop (i + length (text ++ tail)) xs

    front : length (take i xs) ≡ i
    front = omega (arith, length-take i xs)

-- Bytes written at `cur_`, of which `cur_` then passes the first.
store-Adds :
    (b : FixedBuffer) (text tail : List ℕ)
    → IsWithin b
    → b.cur + (length text + length tail) ≤ length b.chars
    → Adds b true text (store b b.cur (text ++ tail) >>= λ c. ok (add (length text) c))
unfolding Adds store add to_string
store-Adds b text tail w h = (
  record { chars = write_at b.cur (text ++ tail) b.chars; cur = b.cur + length text },
  ap
      (λ t. (assert t >> ok (record b { chars = write_at b.cur (text ++ tail) b.chars })) >>= λ c.
        ok (add (length text) c))
      ((leb_iff _ _).1 inside),
  omega (arith, size),
  size,
  take-write_at b.cur text tail b.chars w,
)
  where
    inside : b.cur + length (text ++ tail) ≤ length b.chars
    inside = omega (arith, length-append text tail)

    size : length (write_at b.cur (text ++ tail) b.chars) ≡ length b.chars
    size = length-write_at b.cur (text ++ tail) b.chars inside

dropped-Adds : (b : FixedBuffer) (text : List ℕ) → IsWithin b → Adds b false text (ok b)
unfolding Adds
dropped-Adds b text w = (b, refl, w, refl, sym (append-nil (to_string b)))

pub append-Adds :
    (b : FixedBuffer) (text : List ℕ)
    → IsWithin b
    → Adds b (ltb (length text) (avail b)) text (append b text)
unfolding append avail
append-Adds b text w = elim (Bool-cases (ltb (length text) (avail b))) [
  | inl e ↦ simp e (
      subst (λ t. Adds b true text (store b b.cur t >>= λ c. ok (add (length text) c)))
        (append-nil text) (store-Adds b text [] w (omega (arith, (ltb_iff _ _).0 e))))
  | inr e ↦ simp e (dropped-Adds b text w)
]

-- A text of at most 31 bytes, and the byte 0 behind it.
put_text-Adds :
    (b : FixedBuffer) (text : List ℕ)
    → IsWithin b
    → length text ≤ 31
    → 32 ≤ avail b
    → Adds b true text (put_text b text)
unfolding avail
put_text-Adds b text w h k = store-Adds b text (0 ∷ []) w (omega arith)

-- An integer of any type of C++ goes in as its numeral or, where fewer than 32 bytes are left, not.
pub format_integer-Adds :
    (b : FixedBuffer) (v : ℤ)
    → IsWithin b
    → size v < 2 ^ 64
    → (text : List ℕ) × (read_integer text ≡ some v)
      × Adds b (leb 32 (avail b)) text (format_integer b v)
unfolding format_integer Shows
format_integer-Adds b v w h = numeral (convert-Shows v h)
  where
    numeral :
        Shows read_integer v 21 (convert v)
        → (text : List ℕ) × (read_integer text ≡ some v)
          × Adds b (leb 32 (avail b)) text (format_integer b v)
    numeral (text, e, r, l) = (
      text,
      r,
      elim (Bool-cases (leb 32 (avail b))) [
        | inl k ↦ simp (k, e) (put_text-Adds b text w (omega arith) ((leb_iff _ _).0 k))
        | inr k ↦ simp k (dropped-Adds b text w)
      ],
    )

-- The texts of two stores behind one another.
both-Adds :
    (b c : FixedBuffer) (s t : List ℕ) (o : Outcome FixedBuffer)
    → length c.chars ≡ length b.chars
    → to_string c ≡ to_string b ++ s
    → Adds c true t o
    → Adds b true (s ++ t) o
unfolding Adds
both-Adds b c s t o l e (d, f, w, m, g) =
    (d, f, w, m ∙ l, g ∙ ap (λ u. u ++ t) e ∙ append_assoc (to_string b) s t)

-- The two stores of a pointer are those of the texts 0x and `text`, one behind the other.
abbrev put_prefixed : FixedBuffer → List ℕ → Outcome FixedBuffer
put_prefixed b text = do
  c ← store b b.cur (48 ∷ 120 ∷ [])
  d ← store c (c.cur + 2) (text ++ (0 ∷ []))
  ok (add (length text + 2) d)

abbrev prefixed : FixedBuffer → FixedBuffer
prefixed b = record { chars = write_at b.cur (48 ∷ 120 ∷ []) b.chars; cur = b.cur + 2 }

prefixed_lem :
    (b : FixedBuffer) (text : List ℕ)
    → b.cur + 2 + (length text + 1) ≤ length b.chars
    → put_text (prefixed b) text ≡ put_prefixed b text
unfolding store add
prefixed_lem b text h =
    simp
      (
        (leb_iff (b.cur + 2) (length b.chars)).1 (omega arith),
        (leb_iff (b.cur + 2 + length (text ++ (0 ∷ []))) (length (prefixed b).chars)).1 (
            omega (
              arith,
              length-append text (0 ∷ []),
              length-write_at b.cur (48 ∷ 120 ∷ []) b.chars (omega arith),
            )),
      )
      (ap
        (λ k.
          ok (record {
            chars = write_at (b.cur + 2) (text ++ (0 ∷ [])) (prefixed b).chars;
            cur = k;
          }))
        (omega arith))

put_prefixed-Adds :
    (b : FixedBuffer) (text : List ℕ)
    → IsWithin b
    → length text ≤ 16
    → 32 ≤ avail b
    → Adds b true (48 ∷ 120 ∷ text) (put_prefixed b text)
unfolding avail to_string
put_prefixed-Adds b text w l k =
    subst (Adds b true (48 ∷ 120 ∷ text)) (prefixed_lem b text (omega arith)) (
      both-Adds b (prefixed b) (48 ∷ 120 ∷ []) text (put_text (prefixed b) text) size
        (take-write_at b.cur (48 ∷ 120 ∷ []) [] b.chars w)
        (store-Adds (prefixed b) text (0 ∷ []) (omega (arith, size)) (omega (arith, size))))
  where
    size : length (write_at b.cur (48 ∷ 120 ∷ []) b.chars) ≡ length b.chars
    size = length-write_at b.cur (48 ∷ 120 ∷ []) b.chars (omega arith)

-- A pointer goes in as 0x and its hexadecimal numeral.
pub put_pointer-Adds :
    (b : FixedBuffer) (p : ℕ)
    → IsWithin b
    → p < 2 ^ 64
    → (text : List ℕ) × (read_natural hex_value 16 text ≡ some p)
      × Adds b (leb 32 (avail b)) (48 ∷ 120 ∷ text) (put_pointer b p)
unfolding put_pointer Shows
put_pointer-Adds b p w h = numeral (convert_hex-Shows p h)
  where
    numeral :
        Shows (read_natural hex_value 16) p 16 (convert_hex p)
        → (text : List ℕ) × (read_natural hex_value 16 text ≡ some p)
          × Adds b (leb 32 (avail b)) (48 ∷ 120 ∷ text) (put_pointer b p)
    numeral (text, e, r, l) = (
      text,
      r,
      elim (Bool-cases (leb 32 (avail b))) [
        | inl k ↦ simp (k, e) (put_prefixed-Adds b text w l ((leb_iff _ _).0 k))
        | inr k ↦ simp k (dropped-Adds b (48 ∷ 120 ∷ text) w)
      ],
    )

-- A `double` whose text is of fewer than 32 bytes, as `%.12g` makes it, goes in as that text.
pub put_double-Adds :
    (b : FixedBuffer) (printed : List ℕ)
    → IsWithin b
    → length printed < 32
    → Adds b (leb 32 (avail b)) printed (put_double b printed)
unfolding put_double
put_double-Adds b printed w h = elim (Bool-cases (leb 32 (avail b))) [
  | inl k ↦ simp k (
      subst
        (λ t.
          Adds b true printed (store b b.cur (t ++ (0 ∷ [])) >>= λ c. ok (add (length printed) c)))
        (sym (take_all 31 printed (omega arith)))
        (put_text-Adds b printed w (omega arith) ((leb_iff _ _).0 k)))
  | inr k ↦ simp k (dropped-Adds b printed w)
]

pub put_fmt-Adds :
    (b : FixedBuffer) (printed : List ℕ)
    → IsWithin b
    → length printed < 32
    → Adds b (ltb (length printed) (avail b)) printed (put_fmt b printed)
unfolding put_fmt fmt
put_fmt-Adds b printed w h =
    simp ((ltb_iff (length printed) fmt_size).1 h) (append-Adds b printed w)
