-- ===== src/Prelude/Outcome.antt =====
-- What a call does besides returning: an `assert` that fails ends the program, and a container
-- that would grow past its `max_size` throws `std::length_error`.
use mathlib.Core.Bool.{Bool, true, false}

pub data Outcome {ℓ} (A : Type ℓ) : Type ℓ where
  ok : A → Outcome A
  assert_failed length_error : Outcome A

-- `abbrev`, so that `ok a >>= f` computes wherever it stands.
infixl 5 ◌>>=◌ ◌>>◌
abbrev pub ◌>>=◌ {ℓ κ} : {A : Type ℓ} {B : Type κ} → Outcome A → (A → Outcome B) → Outcome B
ok a >>= f = f a
assert_failed >>= f = assert_failed
length_error >>= f = length_error

abbrev pub ◌>>◌ {ℓ} : {B : Type ℓ} → Outcome (Unit {0}) → Outcome B → Outcome B
m >> k = m >>= λ _. k

abbrev pub assert : Bool → Outcome (Unit {0})
assert true = ok tt
assert false = assert_failed

-- A value where the call returned one, and the old one where it did not.
abbrev pub value_or {ℓ} : {A : Type ℓ} → A → Outcome A → A
value_or a (ok b) = b
value_or a assert_failed = a
value_or a length_error = a
