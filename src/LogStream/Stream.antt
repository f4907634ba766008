-- ===== src/LogStream/Stream.antt =====
-- base/log_stream.cc: a whole chain of `operator<<` on one stream.
use ccnet.Prelude.{
  ℕ, ◌-◌, ◌^◌, ◌<◌, ◌≡◌, refl, sym, ap, subst, ◌∙◌, Bool, Option, none, some, List, [], ◌∷◌, ◌++◌,
  append-nil, append_assoc, arith, ltb, leb, if◌then◌else◌, length, length-append, length-take,
}
use ccnet.Prelude.Outcome.{Outcome, ok, ◌>>=◌}
use ccnet.Prelude.Int.{ℤ}
use ccnet.LogStream.{
  FixedBuffer, avail, to_string, format_integer, put_pointer, put_double, put_bool, put_char,
  put_c_string, put_string, put_buffer, put_fmt,
}
use ccnet.LogStream.Digits.{size, hex_value}
use ccnet.LogStream.Numerals.{read_integer, read_natural}
use ccnet.LogStream.Room.{
  IsWithin, Adds, append-Adds, format_integer-Adds, put_pointer-Adds, put_double-Adds, put_fmt-Adds,
}

-- What the operators of the stream take.
pub data Item : Type 0 where
  boolean : Bool → Item
  character : ℕ → Item
  integer : ℤ → Item
  pointer : ℕ → Item
  double formatted : List ℕ → Item
  c_string : Option (List ℕ) → Item
  string : List ℕ → Item
  buffer : FixedBuffer → Item

abbrev pub put_item : Item → FixedBuffer → Outcome FixedBuffer
put_item (boolean v) b = put_bool b v
put_item (character c) b = put_char b c
put_item (integer v) b = format_integer b v
put_item (pointer p) b = put_pointer b p
put_item (double printed) b = put_double b printed
put_item (formatted printed) b = put_fmt b printed
put_item (c_string s) b = put_c_string b s
put_item (string s) b = put_string b s
put_item (buffer other) b = put_buffer b other

unfoldable pub put_all : List Item → FixedBuffer → Outcome FixedBuffer
put_all [] b = ok b
put_all (x ∷ xs) b = put_item x b >>= λ c. put_all xs c

-- Integers and addresses are of at most 64 bits, and what `snprintf` prints is of at most 31 bytes.
abbrev pub IsTyped : Item → Type 0
IsTyped (boolean v) = Unit {0}
IsTyped (character c) = Unit {0}
IsTyped (integer v) = size v < 2 ^ 64
IsTyped (pointer p) = p < 2 ^ 64
IsTyped (double printed) = length printed < 32
IsTyped (formatted printed) = length printed < 32
IsTyped (c_string s) = Unit {0}
IsTyped (string s) = Unit {0}
IsTyped (buffer other) = Unit {0}

unfoldable pub AreTyped : List Item → Type 0
AreTyped [] = Unit {0}
AreTyped (x ∷ xs) = IsTyped x × AreTyped xs

-- The text of an item.
unfoldable pub IsTextOf : Item → List ℕ → Type 0
IsTextOf (boolean v) t = t ≡ (if v then 49 else 48) ∷ []
IsTextOf (character c) t = t ≡ c ∷ []
IsTextOf (integer v) t = read_integer t ≡ some v
IsTextOf (pointer p) t =
    (ds : List ℕ) × (t ≡ 48 ∷ 120 ∷ ds) × (read_natural hex_value 16 ds ≡ some p)
IsTextOf (double printed) t = t ≡ printed
IsTextOf (formatted printed) t = t ≡ printed
IsTextOf (c_string none) t = t ≡ 40 ∷ 110 ∷ 117 ∷ 108 ∷ 108 ∷ 41 ∷ []
IsTextOf (c_string (some s)) t = t ≡ s
IsTextOf (string s) t = t ≡ s
IsTextOf (buffer other) t = t ≡ to_string other

-- Of a room of `r` bytes numbers want 32 bytes, other texts one byte more than their own.
unfoldable pub fits : Item → List ℕ → ℕ → Bool
fits (boolean v) t r = ltb (length t) r
fits (character c) t r = ltb (length t) r
fits (integer v) t r = leb 32 r
fits (pointer p) t r = leb 32 r
fits (double printed) t r = leb 32 r
fits (formatted printed) t r = ltb (length t) r
fits (c_string s) t r = ltb (length t) r
fits (string s) t r = ltb (length t) r
fits (buffer other) t r = ltb (length t) r

put_item-Adds :
    (x : Item) (b : FixedBuffer)
    → IsTyped x
    → IsWithin b
    → (t : List ℕ) × IsTextOf x t × Adds b (fits x t (avail b)) t (put_item x b)
unfolding IsTextOf fits put_bool put_char put_c_string put_string put_buffer
put_item-Adds (boolean v) b h w = (_, refl, append-Adds b _ w)
put_item-Adds (character c) b h w = (_, refl, append-Adds b _ w)
put_item-Adds (integer v) b h w = format_integer-Adds b v w h
put_item-Adds (pointer p) b h w =
    let (t, r, a) = put_pointer-Adds b p w h in (48 ∷ 120 ∷ t, (t, refl, r), a)
put_item-Adds (double printed) b h w = (printed, refl, put_double-Adds b printed w h)
put_item-Adds (formatted printed) b h w = (printed, refl, put_fmt-Adds b printed w h)
put_item-Adds (c_string none) b h w = (_, refl, append-Adds b _ w)
put_item-Adds (c_string (some s)) b h w = (s, refl, append-Adds b s w)
put_item-Adds (string s) b h w = (s, refl, append-Adds b s w)
put_item-Adds (buffer other) b h w = (_, refl, append-Adds b _ w)

-- What is added of an item with text `t` in a room of `r` bytes.
abbrev kept : Item → List ℕ → ℕ → List ℕ
kept x t r = if fits x t r then t else []

-- What a chain adds in a room of `r` bytes: of each item its whole text or, without room, nothing.
unfoldable pub IsLog : ℕ → List Item → List ℕ → Type 0
IsLog r [] s = s ≡ []
IsLog r (x ∷ xs) s =
    (t : List ℕ) × (u : List ℕ) × IsTextOf x t
    × (s ≡ kept x t r ++ u)
    × IsLog (r - length (kept x t r)) xs u

length-to_string : (b : FixedBuffer) → IsWithin b → length (to_string b) ≡ b.cur
unfolding to_string
length-to_string b w = omega (arith, length-take b.cur b.chars)

avail_after :
    (b c : FixedBuffer) (t : List ℕ)
    → IsWithin b
    → IsWithin c
    → length c.chars ≡ length b.chars
    → to_string c ≡ to_string b ++ t
    → avail c ≡ avail b - length t
unfolding avail
avail_after b c t w v l e =
    omega (
      arith,
      length-to_string b w,
      length-to_string c v,
      length-append (to_string b) t,
      ap length e,
    )

-- A chain of writes that returns, within the array and with a log behind what stood there.
unfoldable pub Logs : List Item → FixedBuffer → Outcome FixedBuffer → Type 0
Logs xs b o =
    (c : FixedBuffer) × (s : List ℕ) × (o ≡ ok c)
    × IsWithin c
    × (length c.chars ≡ length b.chars)
    × IsLog (avail b) xs s
    × (to_string c ≡ to_string b ++ s)

-- On a stream whose `cur_` is within the array, a chain of writes of integers and addresses of at
-- most 64 bits, of printed texts below 32 bytes and of any other items stores nothing outside the
-- array, leaves `cur_` within it, and adds of each item its text where it fits and nothing where not.
pub put_all-Logs :
    (xs : List Item) (b : FixedBuffer) → AreTyped xs → IsWithin b → Logs xs b (put_all xs b)
unfolding put_all AreTyped Logs IsLog Adds
put_all-Logs [] b h w = (b, [], refl, w, refl, refl, sym (append-nil (to_string b)))
put_all-Logs (x ∷ xs) b (h, hs) w =
    let (t, i, (c, e, v, l, f)) = put_item-Adds x b h w in
    let (d, u, g, m, n, k, q) = put_all-Logs xs c hs v in
    (
      d,
      kept x t (avail b) ++ u,
      ap (λ o. o >>= λ a. put_all xs a) e ∙ g,
      m,
      n ∙ l,
      (t, u, i, refl, subst (λ r. IsLog r xs u) (avail_after b c _ w v l f) k),
      q ∙ ap (λ z. z ++ u) f ∙ append_assoc (to_string b) (kept x t (avail b)) u,
    )
