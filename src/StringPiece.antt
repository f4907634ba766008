-- ===== src/StringPiece.antt =====
-- base/string_piece.h: a view of some bytes, which are its value here.
pub mod Order
mod Tests
use ccnet.Prelude.{
  ℕ, zero, suc, ◌+◌, ◌-◌, ◌*◌, ◌/◌, ◌%◌, ◌^◌, ◌≤◌, ◌<◌, min, max, ◌≡◌, refl, sym, ap, ap₂, subst,
  ◌∙◌, ◌≡⟨◌⟩◌, ◌∎, ◌≢◌, ◌↔◌, ◌⊎◌, inl, inr, Bool, true, false, not, ◌&&◌, ◌||◌, Option, none, some,
  List, [], ◌∷◌, ◌++◌, map, append-nil, append_assoc, arith, ltb, leb, ◌==◌, if◌then◌else◌, ltb_iff,
  leb_iff, ==_iff, ==_refl, Bool-cases, Option-cases, length, get_elem?, get_or, take, drop,
  replicate, slice, write_at, length-append, length-take, length-drop, length-replicate,
}
use ccnet.Prelude.Outcome.{Outcome, ok, assert_failed, length_error, ◌>>=◌, ◌>>◌, assert, value_or}
use Prim.Native.Nat.{compare, Ordering, lt, eq, gt}

-- `memcmp` of the first `n` bytes, as unsigned numbers: whether its result is below, at or above 0.
unfoldable pub memcmp : List ℕ → List ℕ → ℕ → Ordering
memcmp xs ys zero = eq
memcmp [] ys (suc n) = eq
memcmp (x ∷ xs) [] (suc n) = eq
memcmp (x ∷ xs) (y ∷ ys) (suc n) =
    let rest = memcmp xs ys n in elim (compare x y) [ lt ↦ lt | eq ↦ rest | gt ↦ gt ]

abbrev is_eq : Ordering → Bool
is_eq lt = false
is_eq eq = true
is_eq gt = false

abbrev is_lt : Ordering → Bool
is_lt lt = true
is_lt eq = false
is_lt gt = false

abbrev is_gt : Ordering → Bool
is_gt lt = false
is_gt eq = false
is_gt gt = true

-- `memcmp` over the shorter of the two lengths.
abbrev common : List ℕ → List ℕ → Ordering
common xs ys = memcmp xs ys (if ltb (length xs) (length ys) then length xs else length ys)

unfoldable pub equal : List ℕ → List ℕ → Bool
equal xs ys = (length xs == length ys) && is_eq (memcmp xs ys (length xs))

-- The four predicates of `STRINGPIECE_BINARY_PREDICATE`.
unfoldable pub less : List ℕ → List ℕ → Bool
less xs ys = is_lt (common xs ys) || (is_eq (common xs ys) && ltb (length xs) (length ys))

unfoldable pub less_equal : List ℕ → List ℕ → Bool
less_equal xs ys = is_lt (common xs ys) || (is_eq (common xs ys) && leb (length xs) (length ys))

unfoldable pub greater_equal : List ℕ → List ℕ → Bool
greater_equal xs ys = is_gt (common xs ys) || (is_eq (common xs ys) && leb (length ys) (length xs))

unfoldable pub greater : List ℕ → List ℕ → Bool
greater xs ys = is_gt (common xs ys) || (is_eq (common xs ys) && ltb (length ys) (length xs))

unfoldable pub compare_to : List ℕ → List ℕ → Ordering
compare_to xs ys =
    let by_length =
      if ltb (length xs) (length ys) then lt else if ltb (length ys) (length xs) then gt else eq in
    elim (common xs ys) [ lt ↦ lt | eq ↦ by_length | gt ↦ gt ]

unfoldable pub starts_with : List ℕ → List ℕ → Bool
starts_with xs ys = leb (length ys) (length xs) && is_eq (memcmp xs ys (length ys))

-- A count beyond the length leaves a view that may not be read.
unfoldable pub remove_prefix : ℕ → List ℕ → Outcome (List ℕ)
remove_prefix n xs = do assert (leb n (length xs)); ok (drop n xs)

unfoldable pub remove_suffix : ℕ → List ℕ → Outcome (List ℕ)
remove_suffix n xs = do assert (leb n (length xs)); ok (take (length xs - n) xs)
