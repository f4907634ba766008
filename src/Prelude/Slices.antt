-- ===== src/Prelude/Slices.antt =====
-- A part of an array, and an array with a part overwritten.
use mathlib.Core.List.{List, ◌++◌}
use mathlib.Core.Path.{◌≡◌, refl, ap, ap₂, ◌∙◌, ◌≡⟨◌⟩◌, ◌∎}
use native.Mathlib.Omega.{arith}
use Prim.Native.Nat.{ℕ, ◌+◌, ◌-◌, ◌≤◌}
use ccnet.Prelude.Lists.{
  length, take, drop, length-append, length-take, length-drop, take-append_le, take-append_ge,
  drop-append_le, drop-append_ge, drop-take, take_all,
}

module _ {ℓ} {A : Type ℓ} where
  -- The `n` elements from index `i` on.
  abbrev pub slice : ℕ → ℕ → List A → List A
  slice i n xs = take n (drop i xs)

  -- `ys` written over `xs` from index `i` on.
  abbrev pub write_at : ℕ → List A → List A → List A
  write_at i ys xs = take i xs ++ (ys ++ drop (i + length ys) xs)

module _ {ℓ} {A : Type ℓ} where
  pub length-slice : (i n : ℕ) (xs : List A) → i + n ≤ length xs → length (slice i n xs) ≡ n
  length-slice i n xs h = omega (arith, length-take n (drop i xs), length-drop i xs)

  pub length-write_at :
      (i : ℕ) (ys xs : List A) → i + length ys ≤ length xs → length (write_at i ys xs) ≡ length xs
  length-write_at i ys xs h = omega (
    arith,
    length-append (take i xs) (ys ++ drop (i + length ys) xs),
    length-append ys (drop (i + length ys) xs),
    length-take i xs,
    length-drop (i + length ys) xs,
  )

  pub take_prefix : (n : ℕ) (ys zs : List A) → n ≡ length ys → take n (ys ++ zs) ≡ ys
  take_prefix n ys zs e = take-append_le n ys zs (omega arith) ∙ take_all n ys (omega arith)

  -- Writing just past a slice extends it.
  pub slice-write_at_after :
      (i n w : ℕ) (ys xs : List A)
      → w ≡ i + n
      → w + length ys ≤ length xs
      → slice i (n + length ys) (write_at w ys xs) ≡ slice i n xs ++ ys
  slice-write_at_after i n w ys xs e h =
      slice i (n + length ys) (write_at w ys xs)
      ≡⟨ ap (take (n + length ys)) (drop-append_le i (take w xs) rest (omega (arith, front))) ⟩
        take (n + length ys) (drop i (take w xs) ++ rest)
      ≡⟨ take-append_ge (n + length ys) (drop i (take w xs)) rest (omega (arith, inner)) ⟩
        drop i (take w xs) ++ take (n + length ys - length (drop i (take w xs))) rest
      ≡⟨ ap₂ ◌++◌ (drop-take i w xs ∙ ap (λ k. slice i k xs) (omega arith))
          (take_prefix _ ys (drop (w + length ys) xs) (omega (arith, inner))) ⟩
        slice i n xs ++ ys ∎
    where
      rest : List A
      rest = ys ++ drop (w + length ys) xs

      front : length (take w xs) ≡ w
      front = omega (arith, length-take w xs)

      inner : length (drop i (take w xs)) ≡ n
      inner = omega (arith, front, length-drop i (take w xs))

  -- Writing just before a slice extends it to the left.
  pub slice-write_at_before :
      (i j n : ℕ) (ys xs : List A)
      → i + length ys ≡ j
      → j ≤ length xs
      → slice i (length ys + n) (write_at i ys xs) ≡ ys ++ slice j n xs
  slice-write_at_before i j n ys xs e h =
      slice i (length ys + n) (write_at i ys xs)
      ≡⟨ ap (take (length ys + n)) (drop-append_ge i (take i xs) rest (omega (arith, front))) ⟩
        take (length ys + n) (drop (i - length (take i xs)) rest)
      ≡⟨ ap (λ k. take (length ys + n) (drop k rest)) {y = 0} (omega (arith, front)) ⟩
        take (length ys + n) rest
      ≡⟨ take-append_ge (length ys + n) ys (drop (i + length ys) xs) (omega arith) ⟩
        ys ++ take (length ys + n - length ys) (drop (i + length ys) xs)
      ≡⟨ ap₂ (λ a b. ys ++ slice a b xs) e (omega arith) ⟩ ys ++ slice j n xs ∎
    where
      rest : List A
      rest = ys ++ drop (i + length ys) xs

      front : length (take i xs) ≡ i
      front = omega (arith, length-take i xs)

  pub slice-append :
      (i n : ℕ) (xs ys : List A) → i + n ≤ length xs → slice i n (xs ++ ys) ≡ slice i n xs
  slice-append i n xs ys h =
      ap (take n) (drop-append_le i xs ys (omega arith))
      ∙ take-append_le n (drop i xs) ys (omega (arith, length-drop i xs))

  pub slice-write_at_self :
      (i : ℕ) (ys xs : List A) → i ≤ length xs → slice i (length ys) (write_at i ys xs) ≡ ys
  slice-write_at_self i ys xs h =
      ap (take (length ys)) (drop-append_ge i (take i xs) rest (omega (arith, front)))
      ∙ ap (λ k. take (length ys) (drop k rest)) {y = 0} (omega (arith, front))
      ∙ take_prefix (length ys) ys (drop (i + length ys) xs) refl
    where
      rest : List A
      rest = ys ++ drop (i + length ys) xs

      front : length (take i xs) ≡ i
      front = omega (arith, length-take i xs)

  pub drop_prefix : (n : ℕ) (ys zs : List A) → n ≡ length ys → drop n (ys ++ zs) ≡ zs
  drop_prefix n ys zs e =
      drop-append_ge n ys zs (omega arith) ∙ ap (λ k. drop k zs) {y = 0} (omega arith)
