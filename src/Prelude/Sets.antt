-- ===== src/Prelude/Sets.antt =====
-- `std::set` of pairs of numbers: a list in the order of the pairs, without repetitions.
use ccnet.Prelude.{
  ℕ, suc, ◌≡◌, refl, ◌∙◌, inl, inr, Bool, true, false, not, ◌&&◌, ◌||◌, List, [], ◌∷◌, arith, ltb,
  ◌==◌, if◌then◌else◌, Bool-cases, length,
}

pub record Key : Type 0 where
  pub first : ℕ
  pub second : ℕ

abbrev pub before : Key → Key → Bool
before x y = ltb x.first y.first || ((x.first == y.first) && ltb x.second y.second)

abbrev pub same : Key → Key → Bool
same x y = (x.first == y.first) && (x.second == y.second)

unfoldable pub is_in : Key → List Key → Bool
is_in x [] = false
is_in x (y ∷ ys) = same x y || is_in x ys

-- An equal key that is there already stays, and the new one is not inserted.
unfoldable pub insert_in : Key → List Key → List Key
insert_in x [] = x ∷ []
insert_in x (y ∷ ys) =
    let rest = insert_in x ys in
    if before x y then x ∷ y ∷ ys else if before y x then y ∷ rest else y ∷ ys

unfoldable pub erase_from : Key → List Key → List Key
erase_from x [] = []
erase_from x (y ∷ ys) = let rest = erase_from x ys in if same x y then ys else y ∷ rest

-- The keys up to the first that is not before the sentry, and those from there on.
unfoldable pub front : Key → List Key → List Key
front sentry [] = []
front sentry (y ∷ ys) = let rest = front sentry ys in if before y sentry then y ∷ rest else []

unfoldable pub back : Key → List Key → List Key
back sentry [] = []
back sentry (y ∷ ys) = let rest = back sentry ys in if before y sentry then rest else y ∷ ys

pub is_in-insert_in :
    (z x : Key) (ys : List Key) → is_in z (insert_in x ys) ≡ (same z x || is_in z ys)
unfolding is_in insert_in
is_in-insert_in z x [] = refl
is_in-insert_in z x (y ∷ ys) = ground (arith, is_in-insert_in z x ys)

pub length-insert_in :
    (x : Key) (ys : List Key) → is_in x ys ≡ false → length (insert_in x ys) ≡ suc (length ys)
unfolding is_in insert_in
length-insert_in x [] h = refl
length-insert_in x (y ∷ ys) h = ground (arith, length-insert_in x ys)

pub length-erase_from :
    (x : Key) (ys : List Key) → is_in x ys ≡ true → suc (length (erase_from x ys)) ≡ length ys
unfolding is_in erase_from
length-erase_from x [] h = absurd cc
length-erase_from x (y ∷ ys) h = ground (arith, length-erase_from x ys)

-- No key stands twice.
unfoldable pub IsDistinct : List Key → Type 0
IsDistinct [] = Unit {0}
IsDistinct (y ∷ ys) = (is_in y ys ≡ false) × IsDistinct ys

pub is_in-erase_from :
    (z x : Key) (ys : List Key)
    → IsDistinct ys
    → is_in z (erase_from x ys) ≡ (is_in z ys && not (same z x))
unfolding is_in erase_from IsDistinct
is_in-erase_from z x [] d = refl
is_in-erase_from z x (y ∷ ys) (h, d) = ground (arith, is_in-erase_from z x ys d, h)

pub erase_from-IsDistinct : (x : Key) (ys : List Key) → IsDistinct ys → IsDistinct (erase_from x ys)
unfolding erase_from IsDistinct
erase_from-IsDistinct x [] d = tt
erase_from-IsDistinct x (y ∷ ys) (h, d) = elim (Bool-cases (same x y)) [
  | inl e ↦ simp e d
  | inr e ↦ simp e (ground (arith, is_in-erase_from y x ys d, h), erase_from-IsDistinct x ys d)
]

before_irreflexive : (x y : Key) → before x y ≡ true → same y x ≡ false
before_irreflexive x y h = ground arith

pub insert_in-IsDistinct :
    (x : Key) (ys : List Key) → IsDistinct ys → is_in x ys ≡ false → IsDistinct (insert_in x ys)
unfolding insert_in is_in IsDistinct
insert_in-IsDistinct x [] d h = (refl, tt)
insert_in-IsDistinct x (y ∷ ys) (new, d) h = elim (Bool-cases (before x y)) [
  | inl e ↦ simp e (h, (new, d))
  | inr e ↦ elim (Bool-cases (before y x)) [
    | inl f ↦
        simp (e, f)
          (
            is_in-insert_in y x ys ∙ ground (arith, new, before_irreflexive y x f),
            insert_in-IsDistinct x ys d (ground arith),
          )
    | inr f ↦ simp (e, f) (new, d)
  ]
]
