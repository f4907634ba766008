-- ===== src/Buffer/Little.antt =====
-- A little-endian machine: it meets what `Integers` assumes of the machine.
use ccnet.Prelude.{
  ℕ, zero, suc, ◌+◌, ◌*◌, ◌/◌, ◌%◌, ◌^◌, ◌<◌, ◌≡◌, refl, ap, ap₂, subst, ◌∙◌, List, [], ◌∷◌, arith,
  length,
}
use native.Mathlib.Nat.{pow-suc, mul-add, add-mul, div-add-mod, div-div-eq-div-mul, mod-eq_of_lt}
use ccnet.Buffer.Integers.{Host, big_endian, length-big_endian}

-- The bytes of a number, the least significant first, and the number that they stand for.
unfoldable pub bytes_le : ℕ → ℕ → List ℕ
bytes_le zero x = []
bytes_le (suc k) x = x % 256 ∷ bytes_le k (x / 256)

unfoldable pub value_le : List ℕ → ℕ
value_le [] = 0
value_le (x ∷ xs) = x + 256 * value_le xs

-- The number that bytes in network order stand for.
unfoldable pub value_be : ℕ → List ℕ → ℕ
value_be acc [] = acc
value_be acc (x ∷ xs) = value_be (256 * acc + x) xs

abbrev AreBytes : List ℕ → Type 0
AreBytes [] = Unit
AreBytes (x ∷ xs) = (x < 256) × AreBytes xs

pub value_le-bytes_le : (k x : ℕ) → x < 256 ^ k → value_le (bytes_le k x) ≡ x
unfolding value_le bytes_le
value_le-bytes_le zero x h = omega arith
value_le-bytes_le (suc k) x h =
    omega (arith, value_le-bytes_le k (x / 256) (omega (arith, pow-suc 256 k)))

value_le-lt : (xs : List ℕ) → AreBytes xs → value_le xs < 256 ^ length xs
unfolding value_le
value_le-lt [] h = omega arith
value_le-lt (x ∷ xs) h = omega (arith, value_le-lt xs h.1, pow-suc 256 (length xs))

bytes_le-value_le : (xs : List ℕ) → AreBytes xs → bytes_le (length xs) (value_le xs) ≡ xs
unfolding value_le bytes_le
bytes_le-value_le [] h = refl
bytes_le-value_le (x ∷ xs) h =
    ap₂ ◌∷◌ (omega arith) (ap (bytes_le (length xs)) (omega arith) ∙ bytes_le-value_le xs h.1)

big_endian-AreBytes : (k x : ℕ) → AreBytes (big_endian k x)
unfolding big_endian
big_endian-AreBytes zero x = tt
big_endian-AreBytes (suc k) x = (omega arith, big_endian-AreBytes k x)

split_digit : (x m : ℕ) → x % (m * 256) ≡ x / m % 256 * m + x % m
split_digit x m = omega (
  arith,
  div-add-mod x m,
  div-add-mod x (m * 256),
  ap (λ (q : ℕ). m * 256 * q) (div-div-eq-div-mul x m 256),
  ap (λ (q : ℕ). m * q) (div-add-mod (x / m) 256),
  mul-add m (256 * (x / m / 256)) (x / m % 256),
)

value_be-big_endian : (k x acc : ℕ) → value_be acc (big_endian k x) ≡ acc * 256 ^ k + x % 256 ^ k
unfolding value_be big_endian
value_be-big_endian zero x acc = omega arith
value_be-big_endian (suc k) x acc =
    value_be-big_endian k x (256 * acc + x / 256 ^ k % 256)
    ∙ omega (
      arith,
      split_digit x (256 ^ k),
      add-mul (256 * acc) (x / 256 ^ k % 256) (256 ^ k),
      ap (λ (p : ℕ). acc * p) (pow-suc 256 k),
      ap (λ (p : ℕ). x % p) (pow-suc 256 k),
    )

unfoldable pub little_htobe : ℕ → ℕ → ℕ
little_htobe k x = value_le (big_endian k x)

unfoldable pub little_betoh : ℕ → ℕ → ℕ
little_betoh k x = value_be 0 (bytes_le k x)

pub little_order : (k x : ℕ) → x < 256 ^ k → bytes_le k (little_htobe k x) ≡ big_endian k x
unfolding little_htobe
little_order k x h =
    subst (λ n. bytes_le n (value_le (big_endian k x)) ≡ big_endian k x) (length-big_endian k x)
      (bytes_le-value_le (big_endian k x) (big_endian-AreBytes k x))

pub little_htobe-lt : (k x : ℕ) → x < 256 ^ k → little_htobe k x < 256 ^ k
unfolding little_htobe
little_htobe-lt k x h =
    subst (λ n. value_le (big_endian k x) < 256 ^ n) (length-big_endian k x)
      (value_le-lt (big_endian k x) (big_endian-AreBytes k x))

pub little_betoh-htobe : (k x : ℕ) → x < 256 ^ k → little_betoh k (little_htobe k x) ≡ x
unfolding little_betoh
little_betoh-htobe k x h =
    rw (little_order k x h) (value_be-big_endian k x 0 ∙ omega (arith, mod-eq_of_lt h))

-- `htobe64` reverses the bytes.
abbrev pub little : Host
little = record {
  htobe = little_htobe;
  betoh = little_betoh;
  object_bytes = bytes_le;
  object_value = λ k. value_le;
  object_value-object_bytes = value_le-bytes_le;
  htobe-lt = little_htobe-lt;
  betoh-htobe = little_betoh-htobe;
  network_order = little_order;
}
