-- ===== src/LogStream/Digits.antt =====
-- base/log_stream.cc: the digits that the loops of `convert` and `convertHex` make, and how many.
use ccnet.Prelude.{
  ℕ, zero, suc, ◌+◌, ◌-◌, ◌/◌, ◌%◌, ◌^◌, ◌≤◌, ◌<◌, ◌≡◌, refl, sym, ap, subst, ◌∙◌, Bool, true,
  false, ◌&&◌, Option, none, some, List, [], ◌∷◌, arith, ltb, leb, ◌==◌, if◌then◌else◌, ==_iff,
  length, get_or,
}
use ccnet.Prelude.Int.{ℤ, pos, negsuc, pos_part, neg_part, sub_ℕ, ◌/ℤ◌, ◌%ℤ◌, ◌+ℤ◌}
use ccnet.LogStream.{digit, convert_loop, digits_hex, convert_hex_loop, is_zero}

abbrev pub size : ℤ → ℕ
size i = pos_part i + neg_part i

-- The value of a character as a digit.
abbrev pub decimal_value : ℕ → Option ℕ
decimal_value c = if leb 48 c && ltb c 58 then some (c - 48) else none

abbrev pub hex_value : ℕ → Option ℕ
hex_value c =
    if leb 48 c && ltb c 58
    then some (c - 48)
    else if leb 65 c && ltb c 71
    then some (c - 55)
    else none

-- The digits of `n` in a base, the last first.
unfoldable pub AreDigits : (ℕ → Option ℕ) → ℕ → ℕ → List ℕ → Type 0
AreDigits value base n [] = n ≡ 0
AreDigits value base n (c ∷ cs) = (value c ≡ some (n % base)) × AreDigits value base (n / base) cs

size-/ℤ : (i : ℤ) → size (i /ℤ 10) ≡ size i / 10
unfolding ◌/ℤ◌
size-/ℤ (pos a) = omega arith
size-/ℤ (negsuc a) = ground arith

digit_table : (r : ℕ) → r < 10 → (digit (pos r) ≡ 48 + r) × (digit (sub_ℕ 0 r) ≡ 48 + r)
unfolding digit ◌+ℤ◌
digit_table zero h = (refl, refl)
digit_table (suc zero) h = (refl, refl)
digit_table (suc (suc zero)) h = (refl, refl)
digit_table (suc (suc (suc zero))) h = (refl, refl)
digit_table (suc (suc (suc (suc zero)))) h = (refl, refl)
digit_table (suc (suc (suc (suc (suc zero))))) h = (refl, refl)
digit_table (suc (suc (suc (suc (suc (suc zero)))))) h = (refl, refl)
digit_table (suc (suc (suc (suc (suc (suc (suc zero))))))) h = (refl, refl)
digit_table (suc (suc (suc (suc (suc (suc (suc (suc zero)))))))) h = (refl, refl)
digit_table (suc (suc (suc (suc (suc (suc (suc (suc (suc zero))))))))) h = (refl, refl)
digit_table (suc (suc (suc (suc (suc (suc (suc (suc (suc (suc r)))))))))) h = absurd (omega arith)

-- `zero[lsd]` is the digit of the magnitude, whatever the sign.
digit-mod : (i : ℤ) → digit (i %ℤ 10) ≡ 48 + size i % 10
unfolding ◌%ℤ◌
digit-mod (pos a) = (digit_table (a % 10) (omega arith)).0 ∙ omega arith
digit-mod (negsuc a) = (digit_table (suc a % 10) (omega arith)).1 ∙ omega arith

decimal_value_lem : (r : ℕ) → r < 10 → decimal_value (48 + r) ≡ some r
decimal_value_lem r h = ground arith

IsHexDigit : ℕ → Type 0
IsHexDigit r = hex_value (get_or digits_hex r 0) ≡ some r

hex_table : (r : ℕ) → r < 16 → IsHexDigit r
unfolding IsHexDigit
hex_table zero h = refl
hex_table (suc zero) h = refl
hex_table (suc (suc zero)) h = refl
hex_table (suc (suc (suc zero))) h = refl
hex_table (suc (suc (suc (suc zero)))) h = refl
hex_table (suc (suc (suc (suc (suc zero))))) h = refl
hex_table (suc (suc (suc (suc (suc (suc zero)))))) h = refl
hex_table (suc (suc (suc (suc (suc (suc (suc zero))))))) h = refl
hex_table (suc (suc (suc (suc (suc (suc (suc (suc zero)))))))) h = refl
hex_table (suc (suc (suc (suc (suc (suc (suc (suc (suc zero))))))))) h = refl
hex_table (suc (suc (suc (suc (suc (suc (suc (suc (suc (suc zero)))))))))) h = refl
hex_table (suc (suc (suc (suc (suc (suc (suc (suc (suc (suc (suc zero))))))))))) h = refl
hex_table (suc (suc (suc (suc (suc (suc (suc (suc (suc (suc (suc (suc zero)))))))))))) h = refl
hex_table (suc (suc (suc (suc (suc (suc (suc (suc (suc (suc (suc (suc (suc zero))))))))))))) h =
    refl
hex_table (suc (suc (suc (suc (suc (suc (suc (suc (suc (suc (suc (suc (suc (suc zero))))))))))))))
      h =
    refl
hex_table
      (suc (suc (suc (suc (suc (suc (suc (suc (suc (suc (suc (suc (suc (suc (suc zero)))))))))))))))
      h =
    refl
hex_table
      (suc
        (suc (suc (suc (suc (suc (suc (suc (suc (suc (suc (suc (suc (suc (suc (suc r))))))))))))))))
      h =
    absurd (omega arith)

-- A loop that returns the digits of `n`, at least one and at most `fuel`.
unfoldable pub Makes : (ℕ → Option ℕ) → ℕ → ℕ → ℕ → Option (List ℕ) → Type 0
Makes value base n fuel o =
    (ds : List ℕ) × (o ≡ some ds)
    × (AreDigits value base n ds)
    × (0 < length ds)
    × (length ds ≤ fuel)

-- One round of either loop, with the digit `c`, the test `b` and the further rounds `rest`.
round-Makes :
    (value : ℕ → Option ℕ) (base n fuel c : ℕ) (b : Bool) (rest : Option (List ℕ))
    → value c ≡ some (n % base)
    → (b ≡ true → n / base ≡ 0)
    → (b ≡ false → Makes value base (n / base) fuel rest)
    → Makes value base n (suc fuel) (elim b [
      | true ↦ some (c ∷ [])
      | false ↦ elim rest [ none ↦ none | some ds ↦ some (c ∷ ds) ]
    ])
unfolding Makes AreDigits
round-Makes value base n fuel c true rest d z m =
    (c ∷ [], refl, (d, z refl), omega arith, omega arith)
round-Makes value base n fuel c false rest d z m = more (m refl)
  where
    more :
        Makes value base (n / base) fuel rest
        → Makes value base n (suc fuel) (elim rest [ none ↦ none | some ds ↦ some (c ∷ ds) ])
    more (ds, e, a, l, k) = (c ∷ ds, rw e refl, (d, a), omega arith, omega arith)

decimal-digit : (i : ℤ) → decimal_value (digit (i %ℤ 10)) ≡ some (size i % 10)
decimal-digit i = ap decimal_value (digit-mod i) ∙ decimal_value_lem (size i % 10) (omega arith)

decimal-zero : (i : ℤ) → is_zero (i /ℤ 10) ≡ true → size i / 10 ≡ 0
decimal-zero i e = sym (size-/ℤ i) ∙ (==_iff (size (i /ℤ 10)) 0).0 e

pub convert_loop-Makes :
    (fuel : ℕ) (i : ℤ)
    → size i < 10 ^ suc fuel
    → Makes decimal_value 10 (size i) (suc fuel) (convert_loop (suc fuel) i)
unfolding convert_loop
convert_loop-Makes zero i h =
    round-Makes decimal_value 10 (size i) 0 _ (is_zero (i /ℤ 10)) none (decimal-digit i)
      (decimal-zero i) (λ e. absurd (ground (arith, size-/ℤ i)))
convert_loop-Makes (suc fuel) i h =
    round-Makes decimal_value 10 (size i) (suc fuel) _ (is_zero (i /ℤ 10))
      (convert_loop (suc fuel) (i /ℤ 10)) (decimal-digit i) (decimal-zero i)
      (λ e.
        subst (λ k. Makes decimal_value 10 k (suc fuel) (convert_loop (suc fuel) (i /ℤ 10)))
          (size-/ℤ i) (convert_loop-Makes fuel (i /ℤ 10) (omega (arith, size-/ℤ i))))

pub convert_hex_loop-Makes :
    (fuel n : ℕ)
    → n < 16 ^ suc fuel
    → Makes hex_value 16 n (suc fuel) (convert_hex_loop (suc fuel) n)
unfolding convert_hex_loop IsHexDigit
convert_hex_loop-Makes zero n h =
    round-Makes hex_value 16 n 0 _ (n / 16 == 0) none (hex_table (n % 16) (omega arith))
      (λ e. (==_iff (n / 16) 0).0 e) (λ e. absurd (ground arith))
convert_hex_loop-Makes (suc fuel) n h =
    round-Makes hex_value 16 n (suc fuel) _ (n / 16 == 0) (convert_hex_loop (suc fuel) (n / 16))
      (hex_table (n % 16) (omega arith)) (λ e. (==_iff (n / 16) 0).0 e)
      (λ e. convert_hex_loop-Makes fuel (n / 16) (omega arith))
