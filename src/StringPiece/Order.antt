-- ===== src/StringPiece/Order.antt =====
-- base/string_piece.h: the comparisons, and the order of the dictionary.
use ccnet.Prelude.{
  take-append-drop, take_all, ℕ, suc, ◌≤◌, ◌≡◌, refl, sym, ap, ap₂, subst, ◌∙◌, ◌↔◌, Bool, true,
  false, not, ◌&&◌, List, [], ◌∷◌, ◌++◌, append-nil, arith, ltb, leb, ◌==◌, if◌then◌else◌, leb_iff,
  ==_iff, length, take, drop, length-append,
}
use Prim.Native.Nat.{compare, Ordering, lt, eq, gt}
use ccnet.StringPiece.{
  memcmp, is_eq, is_lt, is_gt, common, equal, less, less_equal, greater_equal, greater, compare_to,
  starts_with,
}

-- The order of the dictionary.
pub dictionary : List ℕ → List ℕ → Ordering
dictionary [] [] = eq
dictionary [] (y ∷ ys) = lt
dictionary (x ∷ xs) [] = gt
dictionary (x ∷ xs) (y ∷ ys) =
    let rest = dictionary xs ys in elim (compare x y) [ lt ↦ lt | eq ↦ rest | gt ↦ gt ]

abbrev first_then : ℕ → ℕ → Ordering → Ordering
first_then x y rest = elim (compare x y) [ lt ↦ lt | eq ↦ rest | gt ↦ gt ]

memcmp_cons :
    (x y : ℕ) (xs ys : List ℕ) (n : ℕ)
    → memcmp (x ∷ xs) (y ∷ ys) (suc n) ≡ first_then x y (memcmp xs ys n)
unfolding memcmp
memcmp_cons x y xs ys n = refl

suc_if : (m n : ℕ) → (if ltb (suc m) (suc n) then suc m else suc n) ≡ suc (if ltb m n then m else n)
suc_if m n = ground arith

common_cons : (x y : ℕ) (xs ys : List ℕ) → common (x ∷ xs) (y ∷ ys) ≡ first_then x y (common xs ys)
common_cons x y xs ys =
    ap (memcmp (x ∷ xs) (y ∷ ys)) (suc_if (length xs) (length ys)) ∙ memcmp_cons x y xs ys _

-- The length decides where the common part does not.
abbrev by_length : List ℕ → List ℕ → Ordering
by_length xs ys =
    if ltb (length xs) (length ys) then lt else if ltb (length ys) (length xs) then gt else eq

by_length_cons : (x y : ℕ) (xs ys : List ℕ) → by_length (x ∷ xs) (y ∷ ys) ≡ by_length xs ys
by_length_cons x y xs ys = ground arith

abbrev or_else : Ordering → Ordering → Ordering
or_else o rest = elim o [ lt ↦ lt | eq ↦ rest | gt ↦ gt ]

or_else_assoc : (a b c : Ordering) → or_else (or_else a b) c ≡ or_else a (or_else b c)
or_else_assoc lt b c = refl
or_else_assoc eq b c = refl
or_else_assoc gt b c = refl

compare_to-dictionary : (xs ys : List ℕ) → compare_to xs ys ≡ dictionary xs ys
unfolding compare_to memcmp dictionary
compare_to-dictionary [] [] = refl
compare_to-dictionary [] (y ∷ ys) = ground arith
compare_to-dictionary (x ∷ xs) [] = ground arith
compare_to-dictionary (x ∷ xs) (y ∷ ys) =
    ap₂ or_else (common_cons x y xs ys) (by_length_cons x y xs ys)
    ∙ or_else_assoc (compare x y) (common xs ys) (by_length xs ys)
    ∙ ap (or_else (compare x y)) (compare_to-dictionary xs ys)

-- The four comparisons are the signs of `compare`.
less-compare_to : (xs ys : List ℕ) → less xs ys ≡ is_lt (compare_to xs ys)
unfolding less compare_to
less-compare_to xs ys = ground arith

less_equal-compare_to : (xs ys : List ℕ) → less_equal xs ys ≡ not (is_gt (compare_to xs ys))
unfolding less_equal compare_to
less_equal-compare_to xs ys = ground arith

greater-compare_to : (xs ys : List ℕ) → greater xs ys ≡ is_gt (compare_to xs ys)
unfolding greater compare_to
greater-compare_to xs ys = ground arith

greater_equal-compare_to : (xs ys : List ℕ) → greater_equal xs ys ≡ not (is_lt (compare_to xs ys))
unfolding greater_equal compare_to
greater_equal-compare_to xs ys = ground arith

-- `compare` is the order of the dictionary over unsigned bytes, and the four comparison operators
-- are the signs of that order.
pub comparisons-dictionary :
    (xs ys : List ℕ)
    → (compare_to xs ys ≡ dictionary xs ys)
      × (less xs ys ≡ is_lt (dictionary xs ys))
      × (less_equal xs ys ≡ not (is_gt (dictionary xs ys)))
      × (greater xs ys ≡ is_gt (dictionary xs ys))
      × (greater_equal xs ys ≡ not (is_lt (dictionary xs ys)))
comparisons-dictionary xs ys = (
  compare_to-dictionary xs ys,
  less-compare_to xs ys ∙ ap is_lt (compare_to-dictionary xs ys),
  less_equal-compare_to xs ys ∙ ap (λ o. not (is_gt o)) (compare_to-dictionary xs ys),
  greater-compare_to xs ys ∙ ap is_gt (compare_to-dictionary xs ys),
  greater_equal-compare_to xs ys ∙ ap (λ o. not (is_lt o)) (compare_to-dictionary xs ys),
)

memcmp-same : (xs zs : List ℕ) → memcmp (xs ++ zs) xs (length xs) ≡ eq
unfolding memcmp
memcmp-same [] zs = refl
memcmp-same (x ∷ xs) zs = ground (arith, memcmp-same xs zs)

first_then-eq : (x y : ℕ) (r : Ordering) → first_then x y r ≡ eq → (x ≡ y) × (r ≡ eq)
first_then-eq x y r e = ground arith

memcmp-prefix :
    (xs ys : List ℕ)
    → length ys ≤ length xs
    → memcmp xs ys (length ys) ≡ eq
    → take (length ys) xs ≡ ys
unfolding memcmp
memcmp-prefix xs [] h e = refl
memcmp-prefix [] (y ∷ ys) h e = absurd (omega arith)
memcmp-prefix (x ∷ xs) (y ∷ ys) h e =
    let both = first_then-eq x y (memcmp xs ys (length ys)) e in
    ap₂ (λ a l. a ∷ l) both.0 (memcmp-prefix xs ys (omega arith) both.1)

is_eq_iff : (o : Ordering) → (is_eq o ≡ true) → o ≡ eq
is_eq_iff lt e = absurd cc
is_eq_iff eq e = refl
is_eq_iff gt e = absurd cc

and_true : (a b : Bool) → (a && b) ≡ true → (a ≡ true) × (b ≡ true)
and_true true b e = (refl, e)
and_true false b e = absurd cc

-- `starts_with` is true just where the second view is a prefix of the first.
pub starts_with_iff :
    (xs ys : List ℕ) → (starts_with xs ys ≡ true) ↔ ((zs : List ℕ) × (xs ≡ ys ++ zs))
unfolding starts_with
starts_with_iff xs ys = (forward, backward)
  where
    forward : starts_with xs ys ≡ true → (zs : List ℕ) × (xs ≡ ys ++ zs)
    forward e =
        let both = and_true (leb (length ys) (length xs)) _ e in
        (
          drop (length ys) xs,
          sym (take-append-drop (length ys) xs)
              ∙ ap (λ l. l ++ drop (length ys) xs)
                  (memcmp-prefix xs ys ((leb_iff (length ys) (length xs)).0 both.0)
                    (is_eq_iff _ both.1)),
        )

    backward : ((zs : List ℕ) × (xs ≡ ys ++ zs)) → starts_with xs ys ≡ true
    backward (zs, e) = rw e (simp (memcmp-same ys zs) (ground (arith, length-append ys zs)))

-- The operator `==` is equality of the bytes.
pub equal_iff : (xs ys : List ℕ) → (equal xs ys ≡ true) ↔ (xs ≡ ys)
unfolding equal
equal_iff xs ys = (forward, backward)
  where
    forward : equal xs ys ≡ true → xs ≡ ys
    forward e =
        let both = and_true (length xs == length ys) _ e in
        let same = (==_iff (length xs) (length ys)).0 both.0 in
        sym (take_all (length ys) xs (omega arith))
        ∙ memcmp-prefix xs ys (omega arith)
            (subst (λ k. memcmp xs ys k ≡ eq) same (is_eq_iff _ both.1))

    backward : xs ≡ ys → equal xs ys ≡ true
    backward e =
        subst (λ l. equal xs l ≡ true) e
          (simp (ap (λ l. memcmp l xs (length xs)) (sym (append-nil xs)) ∙ memcmp-same xs [])
            (ground arith))
