-- ===== src/LogStream.antt =====
-- base/log_stream.h and base/log_stream.cc: a buffer of fixed size, and numbers written as text. A
-- text is the list of its bytes; floating point numbers are printed by `snprintf` and left out.
pub mod Digits
pub mod Numerals
pub mod Room
pub mod Stream
mod Tests
use ccnet.Prelude.{
  ℕ, zero, suc, ◌+◌, ◌-◌, ◌*◌, ◌/◌, ◌%◌, ◌^◌, ◌≤◌, ◌<◌, min, max, ◌≡◌, refl, sym, ap, ap₂, subst,
  ◌∙◌, ◌≡⟨◌⟩◌, ◌∎, ◌≢◌, ◌↔◌, ◌⊎◌, inl, inr, Bool, true, false, not, ◌&&◌, ◌||◌, Option, none, some,
  List, [], ◌∷◌, ◌++◌, map, append-nil, append_assoc, arith, ltb, leb, ◌==◌, if◌then◌else◌, ltb_iff,
  leb_iff, ==_iff, ==_refl, Bool-cases, Option-cases, length, get_elem?, get_or, take, drop,
  replicate, slice, write_at, length-append, length-take, length-drop, length-replicate,
}
use ccnet.Prelude.Outcome.{Outcome, ok, assert_failed, length_error, ◌>>=◌, ◌>>◌, assert, value_or}
use ccnet.Prelude.Int.{ℤ, pos, negsuc, pos_part, neg_part, ltb_ℤ, ◌/ℤ◌, ◌%ℤ◌, ◌+ℤ◌}

-- `data_` and the place of `cur_` in it.
pub record FixedBuffer : Type 0 where
  pub chars : List ℕ
  pub cur : ℕ

-- A new buffer over an array, whose bytes are not set.
unfoldable pub create : List ℕ → FixedBuffer
create storage = record { chars = storage; cur = 0 }

abbrev pub small_buffer : ℕ
small_buffer = 4000

abbrev pub large_buffer : ℕ
large_buffer = 4000000

abbrev pub max_numeric_size : ℕ
max_numeric_size = 32

unfoldable pub avail : FixedBuffer → ℕ
avail b = length b.chars - b.cur

-- `toString`: what has been written.
unfoldable pub to_string : FixedBuffer → List ℕ
to_string b = take b.cur b.chars

-- Writing outside an array is undefined in C++; it stands as a failed assertion.
unfoldable pub store : FixedBuffer → ℕ → List ℕ → Outcome FixedBuffer
store b i bytes = do
  assert (leb (i + length bytes) (length b.chars))
  ok (record b { chars = write_at i bytes b.chars })

unfoldable pub add : ℕ → FixedBuffer → FixedBuffer
add len b = record b { cur = b.cur + len }

unfoldable pub reset : FixedBuffer → FixedBuffer
reset b = record b { cur = 0 }

unfoldable pub append : FixedBuffer → List ℕ → Outcome FixedBuffer
append b bytes =
    if ltb (length bytes) (avail b)
    then (do c ← store b b.cur bytes; ok (add (length bytes) c))
    else ok b

-- The nineteen characters of `digits`, and `zero`, the place of the 0 among them.
abbrev pub digits : List ℕ
digits =
    57 ∷ 56 ∷ 55 ∷ 54 ∷ 53 ∷ 52 ∷ 51 ∷ 50 ∷ 49 ∷ 48 ∷ 49 ∷ 50 ∷ 51 ∷ 52 ∷ 53 ∷ 54 ∷ 55 ∷ 56 ∷ 57
    ∷ []

-- `zero[lsd]`, where a negative digit goes to the left.
unfoldable pub digit : ℤ → ℕ
digit lsd = get_or digits (pos_part (pos 9 +ℤ lsd)) 0

abbrev pub digits_hex : List ℕ
digits_hex = 48 ∷ 49 ∷ 50 ∷ 51 ∷ 52 ∷ 53 ∷ 54 ∷ 55 ∷ 56 ∷ 57 ∷ 65 ∷ 66 ∷ 67 ∷ 68 ∷ 69 ∷ 70 ∷ []

abbrev is_zero : ℤ → Bool
is_zero i = pos_part i + neg_part i == 0

-- The loop of `convert`, with fuel: the digits from the last to the first.
unfoldable pub convert_loop : ℕ → ℤ → Option (List ℕ)
convert_loop zero i = none
convert_loop (suc fuel) i =
    let rest = convert_loop fuel (i /ℤ 10) in
    elim (is_zero (i /ℤ 10)) [
      | true ↦ some (digit (i %ℤ 10) ∷ [])
      | false ↦ elim rest [ none ↦ none | some ds ↦ some (digit (i %ℤ 10) ∷ ds) ]
    ]

unfoldable pub reverse : List ℕ → List ℕ
reverse [] = []
reverse (x ∷ xs) = reverse xs ++ (x ∷ [])

-- The rounds of the loop are at most the digits of a number of 64 bits.
abbrev pub convert_fuel : ℕ
convert_fuel = 20

-- The text that `convert` leaves at `buf`, without the byte 0 behind it.
unfoldable pub convert : ℤ → Option (List ℕ)
convert value = elim (convert_loop convert_fuel value) [
  | none ↦ none
  | some ds ↦ some (reverse (if ltb_ℤ value (pos 0) then ds ++ (45 ∷ []) else ds))
]

-- `convertHex`, of an address.
unfoldable pub convert_hex_loop : ℕ → ℕ → Option (List ℕ)
convert_hex_loop zero i = none
convert_hex_loop (suc fuel) i =
    let rest = convert_hex_loop fuel (i / 16) in
    elim (i / 16 == 0) [
      | true ↦ some (get_or digits_hex (i % 16) 0 ∷ [])
      | false ↦ elim rest [ none ↦ none | some ds ↦ some (get_or digits_hex (i % 16) 0 ∷ ds) ]
    ]

abbrev pub convert_hex_fuel : ℕ
convert_hex_fuel = 16

unfoldable pub convert_hex : ℕ → Option (List ℕ)
convert_hex value = elim (convert_hex_loop convert_hex_fuel value) [
  | none ↦ none
  | some ds ↦ some (reverse ds)
]

-- The bytes at `current()`, with the byte 0 behind them.
abbrev put_text : FixedBuffer → List ℕ → Outcome FixedBuffer
put_text b text = do c ← store b b.cur (text ++ (0 ∷ [])); ok (add (length text) c)

-- No text means that the fuel of a conversion ran out, which stands as a failed assertion too.
abbrev put_converted : FixedBuffer → Option (List ℕ) → Outcome FixedBuffer
put_converted b none = assert_failed
put_converted b (some text) = put_text b text

unfoldable pub format_integer : FixedBuffer → ℤ → Outcome FixedBuffer
format_integer b v = if leb max_numeric_size (avail b) then put_converted b (convert v) else ok b

-- `operator<<` of a pointer, whose text begins with 0x.
unfoldable pub put_pointer : FixedBuffer → ℕ → Outcome FixedBuffer
put_pointer b p =
    if leb max_numeric_size (avail b)
    then (do
      c ← store b b.cur (48 ∷ 120 ∷ [])
      elim (convert_hex p) [
        | none ↦ assert_failed
        | some text ↦ (do d ← store c (c.cur + 2) (text ++ (0 ∷ [])); ok (add (length text + 2) d))
      ])
    else ok b

-- `operator<<` of a `double`, where `printed` is the whole text that `snprintf` would write: it
-- writes at most 31 bytes of it, and returns its length.
unfoldable pub put_double : FixedBuffer → List ℕ → Outcome FixedBuffer
put_double b printed =
    if leb max_numeric_size (avail b)
    then (do
      c ← store b b.cur (take (max_numeric_size - 1) printed ++ (0 ∷ []))
      ok (add (length printed) c))
    else ok b

unfoldable pub put_bool : FixedBuffer → Bool → Outcome FixedBuffer
put_bool b v = append b ((if v then 49 else 48) ∷ [])

unfoldable pub put_char : FixedBuffer → ℕ → Outcome FixedBuffer
put_char b c = append b (c ∷ [])

-- A null pointer is `none`.
unfoldable pub put_c_string : FixedBuffer → Option (List ℕ) → Outcome FixedBuffer
put_c_string b none = append b (40 ∷ 110 ∷ 117 ∷ 108 ∷ 108 ∷ 41 ∷ [])
put_c_string b (some s) = append b s

unfoldable pub put_string : FixedBuffer → List ℕ → Outcome FixedBuffer
put_string b s = append b s

unfoldable pub put_buffer : FixedBuffer → FixedBuffer → Outcome FixedBuffer
put_buffer b other = append b (to_string other)

-- `Fmt`, whose text `snprintf` prints, and its `operator<<`.
abbrev pub fmt_size : ℕ
fmt_size = 32

unfoldable pub fmt : List ℕ → Outcome (List ℕ)
fmt printed = do assert (ltb (length printed) fmt_size); ok printed

unfoldable pub put_fmt : FixedBuffer → List ℕ → Outcome FixedBuffer
put_fmt b printed = do text ← fmt printed; append b text
