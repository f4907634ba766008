-- ===== src/LogStream/Tests.antt =====
-- Numbers as text, a chain of writes, and the theorems at them.
use ccnet.Prelude.{◌≡◌, refl, none, some, List, [], ◌∷◌, arith, replicate}
use ccnet.Prelude.Int.{pos, negsuc, ◌+ℤ◌, ◌/ℤ◌, ◌%ℤ◌}
use ccnet.LogStream.{
  FixedBuffer, create, convert, convert_loop, convert_hex, convert_hex_loop, digit, reverse,
}
use ccnet.LogStream.Numerals.{Shows, read_integer, convert-Shows}
use ccnet.LogStream.Stream.{
  Item, integer, string, c_string, pointer, put_all, Logs, put_all-Logs, AreTyped,
}

numerals :
    (convert (negsuc 119) ≡ some (45 ∷ 49 ∷ 50 ∷ 48 ∷ []))
    × (convert (pos 0) ≡ some (48 ∷ []))
    × (convert_hex 175 ≡ some (65 ∷ 70 ∷ []))
unfolding convert convert_loop convert_hex convert_hex_loop digit reverse ◌+ℤ◌ ◌/ℤ◌ ◌%ℤ◌
numerals = (refl, refl, refl)

convert-Shows_example : Shows read_integer (negsuc 119) 21 (convert (negsuc 119))
convert-Shows_example = convert-Shows (negsuc 119) (omega arith)

-- Forty bytes take the number, a text, the null pointer of a string, and no address.
abbrev start : FixedBuffer
start = create (replicate 40 0)

abbrev items : List Item
items = integer (negsuc 119) ∷ string (97 ∷ 98 ∷ []) ∷ c_string none ∷ pointer 175 ∷ []

items-AreTyped : AreTyped items
unfolding AreTyped
items-AreTyped = (omega arith, (tt, (tt, (omega arith, tt))))

put_all-Logs_example : Logs items start (put_all items start)
unfolding create
put_all-Logs_example = put_all-Logs items start items-AreTyped (omega arith)
