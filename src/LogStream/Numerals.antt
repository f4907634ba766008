-- ===== src/LogStream/Numerals.antt =====
-- base/log_stream.cc: the texts of `convert` and `convertHex`, read again.
use ccnet.Prelude.{
  ℕ, suc, ◌+◌, ◌*◌, ◌/◌, ◌%◌, ◌^◌, ◌≤◌, ◌<◌, ◌≡◌, refl, sym, ap, subst, ◌∙◌, inl, inr, true, false,
  Option, none, some, List, [], ◌∷◌, ◌++◌, arith, ltb, ◌==◌, if◌then◌else◌, ==_iff, Bool-cases,
  Option-cases, length, length-append,
}
use ccnet.Prelude.Int.{ℤ, pos, negsuc, sub_ℕ, ltb_ℤ}
use ccnet.LogStream.{
  convert, convert_fuel, convert_loop, reverse, convert_hex, convert_hex_fuel, convert_hex_loop,
}
use ccnet.LogStream.Digits.{
  size, decimal_value, hex_value, AreDigits, Makes, convert_loop-Makes, convert_hex_loop-Makes,
}

-- A numeral as a reader takes it: from the left, each digit after the value `acc` so far.
pub read_digits : (ℕ → Option ℕ) → ℕ → ℕ → List ℕ → Option ℕ
read_digits value base acc [] = some acc
read_digits value base acc (c ∷ cs) = elim (value c) [
  | none ↦ none
  | some d ↦ read_digits value base (acc * base + d) cs
]

unfoldable pub read_natural : (ℕ → Option ℕ) → ℕ → List ℕ → Option ℕ
read_natural value base [] = none
read_natural value base (c ∷ cs) = read_digits value base 0 (c ∷ cs)

-- The number that a text stands for: a sign or none, and at least one digit.
unfoldable pub read_integer : List ℕ → Option ℤ
read_integer [] = none
read_integer (c ∷ cs) =
    if c == 45
    then (elim (read_natural decimal_value 10 cs) [ none ↦ none | some n ↦ some (sub_ℕ 0 n) ])
    else (elim (read_natural decimal_value 10 (c ∷ cs)) [ none ↦ none | some n ↦ some (pos n) ])

read_digits-append :
    (value : ℕ → Option ℕ) (base acc n c d : ℕ) (xs : List ℕ)
    → read_digits value base acc xs ≡ some n
    → value c ≡ some d
    → read_digits value base acc (xs ++ (c ∷ [])) ≡ some (n * base + d)
unfolding read_digits
read_digits-append value base acc n c d [] h k = rw k (ap some (ground (arith, h)))
read_digits-append value base acc n c d (x ∷ xs) h k = elim (Option-cases (value x)) [
  | inl e ↦ absurd (ground (arith, e, h))
  | inr (v, e) ↦ rw e (read_digits-append value base (acc * base + v) n c d xs (later v e) k)
]
  where
    later : (v : ℕ) → value x ≡ some v → read_digits value base (acc * base + v) xs ≡ some n
    later v e =
        sym
          (ap (λ o. elim o [ none ↦ none | some d ↦ read_digits value base (acc * base + d) xs ]) e)
        ∙ h

module _ (value : ℕ → Option ℕ) (base : ℕ)
    (division : (n : ℕ) → n / base * base + n % base ≡ n) where
  read_digits-reverse :
      (n : ℕ) (ds : List ℕ)
      → AreDigits value base n ds
      → read_digits value base 0 (reverse ds) ≡ some n
  unfolding AreDigits reverse read_digits
  read_digits-reverse n [] h = ap some (sym h)
  read_digits-reverse n (d ∷ ds) (h, hs) =
      read_digits-append value base 0 (n / base) d (n % base) (reverse ds)
        (read_digits-reverse (n / base) ds hs) h
      ∙ ap some (division n)

length-reverse : (xs : List ℕ) → length (reverse xs) ≡ length xs
unfolding reverse
length-reverse [] = refl
length-reverse (x ∷ xs) = omega (arith, length-append (reverse xs) (x ∷ []), length-reverse xs)

reverse-append : (xs : List ℕ) (c : ℕ) → reverse (xs ++ (c ∷ [])) ≡ c ∷ reverse xs
unfolding reverse
reverse-append [] c = refl
reverse-append (x ∷ xs) c = ap (λ r. r ++ (x ∷ [])) (reverse-append xs c)

read_natural_lem :
    (value : ℕ → Option ℕ) (base n : ℕ) (xs : List ℕ)
    → 0 < length xs
    → read_digits value base 0 xs ≡ some n
    → read_natural value base xs ≡ some n
unfolding read_natural
read_natural_lem value base n [] h e = absurd (omega arith)
read_natural_lem value base n (x ∷ xs) h e = e

-- A result that is a text of at most `n` characters which reads as `v`.
unfoldable pub Shows {ℓ} : {A : Type ℓ} → (List ℕ → Option A) → A → ℕ → Option (List ℕ) → Type ℓ
Shows read v n o = (t : List ℕ) × (o ≡ some t) × (read t ≡ some v) × (length t ≤ n)

-- `value < 0`, and the sign that is then put behind the digits.
abbrev signed : ℤ → List ℕ → List ℕ
signed v ds = if ltb_ℤ v (pos 0) then ds ++ (45 ∷ []) else ds

unsigned_text :
    (n : ℕ) (xs : List ℕ)
    → 0 < length xs
    → read_digits decimal_value 10 0 xs ≡ some n
    → read_integer xs ≡ some (pos n)
unfolding read_integer read_natural read_digits
unsigned_text n [] h e = absurd (omega arith)
unsigned_text n (c ∷ cs) h e = elim (Bool-cases (c == 45)) [
  | inl k ↦ absurd (
      ground (
        arith,
        subst (λ d. read_digits decimal_value 10 0 (d ∷ cs) ≡ some n) ((==_iff c 45).0 k) e,
      ))
  | inr k ↦ rw k (rw e refl)
]

minus_suc : (a : ℕ) → sub_ℕ 0 (suc a) ≡ negsuc a
minus_suc a = ground arith

negative_text :
    (a : ℕ) (xs : List ℕ)
    → 0 < length xs
    → read_digits decimal_value 10 0 xs ≡ some (suc a)
    → read_integer (45 ∷ xs) ≡ some (negsuc a)
unfolding read_integer
negative_text a xs h e =
    rw (read_natural_lem decimal_value 10 (suc a) xs h e) (ap some (minus_suc a))

signed_text :
    (v : ℤ) (ds : List ℕ)
    → AreDigits decimal_value 10 (size v) ds
    → 0 < length ds
    → (read_integer (reverse (signed v ds)) ≡ some v)
      × (length (reverse (signed v ds)) ≤ suc (length ds))
signed_text (pos a) ds h l = simp (plus a) (
  unsigned_text a (reverse ds) (omega (arith, length-reverse ds)) (
      read_digits-reverse decimal_value 10 (λ n. omega arith) a ds
        (subst (λ k. AreDigits decimal_value 10 k ds) (omega arith) h)),
  omega (arith, length-reverse ds),
)
  where
    plus : (n : ℕ) → ltb (n + 0) 0 ≡ false
    plus n = ground arith
signed_text (negsuc a) ds h l = simp (minus a) (
  ap read_integer (reverse-append ds 45)
      ∙ negative_text a (reverse ds) (omega (arith, length-reverse ds)) (
          read_digits-reverse decimal_value 10 (λ n. omega arith) (suc a) ds
            (subst (λ k. AreDigits decimal_value 10 k ds) (omega arith) h)),
  omega (arith, length-reverse (ds ++ (45 ∷ [])), length-append ds (45 ∷ [])),
)
  where
    minus : (n : ℕ) → ltb 0 (0 + suc n) ≡ true
    minus n = ground arith

-- For an integer of at most 64 bits `convert` ends within its fuel with a text of at most 21
-- characters, that reads as that integer, sign included.
pub convert-Shows : (v : ℤ) → size v < 2 ^ 64 → Shows read_integer v 21 (convert v)
unfolding convert Shows Makes
convert-Shows v h = shown (convert_loop-Makes 19 v (omega arith))
  where
    shown :
        Makes decimal_value 10 (size v) 20 (convert_loop convert_fuel v)
        → Shows read_integer v 21 (convert v)
    shown (ds, e, a, l, m) =
        let both = signed_text v ds a l in
        (
          reverse (signed v ds),
          ap (λ o. elim o [ none ↦ none | some cs ↦ some (reverse (signed v cs)) ]) e,
          both.0,
          omega (arith, both.1, m),
        )

-- For an address of 64 bits `convertHex` ends within its fuel with at most 16 characters, that read
-- as that address.
pub convert_hex-Shows :
    (n : ℕ) → n < 2 ^ 64 → Shows (read_natural hex_value 16) n 16 (convert_hex n)
unfolding convert_hex Shows Makes
convert_hex-Shows n h = shown (convert_hex_loop-Makes 15 n (omega arith))
  where
    shown :
        Makes hex_value 16 n 16 (convert_hex_loop convert_hex_fuel n)
        → Shows (read_natural hex_value 16) n 16 (convert_hex n)
    shown (ds, e, a, l, m) = (
      reverse ds,
      ap (λ o. elim o [ none ↦ none | some cs ↦ some (reverse cs) ]) e,
      read_natural_lem hex_value 16 n (reverse ds) (omega (arith, length-reverse ds))
          (read_digits-reverse hex_value 16 (λ k. omega arith) n ds a),
      omega (arith, length-reverse ds, m),
    )
