-- ===== src/TimeZone/Bound.antt =====
-- The binary search of base/time_zone.cc (`std::lower_bound`) and the entry it leaves.
use ccnet.Prelude.{
  ℕ, zero, suc, ◌≤◌, ◌<◌, ◌≡◌, refl, sym, ap, subst, ◌∙◌, inl, inr, Bool, true, false, Option, none,
  some, List, [], ◌∷◌, arith, leb, if◌then◌else◌, ltb_iff, leb_iff, Bool-cases, length, get_elem?,
}
use ccnet.Prelude.Int.{ℤ, ltb_ℤ, eqb_ℤ, ◌≤ℤ◌, ◌<ℤ◌}
use ccnet.TimeZone.{Transition, comp, comp_equal, lower_bound}

-- The time that a search compares.
abbrev pub time_of : Bool → Transition → ℤ
time_of true t = t.gmt_time
time_of false t = t.local_time

pub comp_lem :
    (gmt : Bool) (s t : Transition) → comp gmt s t ≡ ltb_ℤ (time_of gmt s) (time_of gmt t)
unfolding comp
comp_lem true s t = refl
comp_lem false s t = refl

pub comp_equal_lem :
    (gmt : Bool) (s t : Transition) → comp_equal gmt s t ≡ eqb_ℤ (time_of gmt s) (time_of gmt t)
unfolding comp_equal
comp_equal_lem true s t = refl
comp_equal_lem false s t = refl

-- The times of the transitions go up.
unfoldable pub IsSorted : Bool → List Transition → Type 0
IsSorted gmt ts =
    (i j : ℕ) (t u : Transition)
    → i < j
    → get_elem? ts i ≡ some t
    → get_elem? ts j ≡ some u
    → time_of gmt t <ℤ time_of gmt u

-- The entry at `i` is the last that is not after the time `s`.
pub record IsLatest (gmt : Bool) (s : ℤ) (ts : List Transition) (i : ℕ) (entry : Transition)
    : Type 0 where
  pub entry_law : get_elem? ts i ≡ some entry
  pub not_after : time_of gmt entry ≤ℤ s
  pub others : (j : ℕ) (u : Transition) → get_elem? ts j ≡ some u → time_of gmt u ≤ℤ s → j ≤ i

value_of : Transition → Option Transition → Transition
value_of d none = d
value_of d (some t) = t

pub some_same : (t u : Transition) → some t ≡ some u → t ≡ u
unfolding value_of
some_same t u e = ap (value_of t) e

module _ (gmt : Bool) (sentry : Transition) where
  abbrev earlier : Transition → Bool
  earlier t = comp gmt t sentry

  earlier_lem :
      (t : Transition) (b : Bool) → earlier t ≡ b → ltb_ℤ (time_of gmt t) (time_of gmt sentry) ≡ b
  earlier_lem t b e = sym (comp_lem gmt t sentry) ∙ e

  pub before_bound :
      (ts : List Transition) (j : ℕ) (u : Transition)
      → j < lower_bound earlier ts
      → get_elem? ts j ≡ some u
      → time_of gmt u <ℤ time_of gmt sentry
  unfolding lower_bound
  before_bound [] j u h e = absurd (omega arith)
  before_bound (t ∷ ts) zero u h e = elim (Bool-cases (earlier t)) [
    | inl f ↦
        subst (λ x. time_of gmt x <ℤ time_of gmt sentry) (some_same t u e)
          ((ltb_iff _ _).0 (earlier_lem t true f))
    | inr f ↦ absurd (omega (arith, simp f at h))
  ]
  before_bound (t ∷ ts) (suc j) u h e = before_bound ts j u (shorter (earlier t) h) e
    where
      shorter :
          (b : Bool)
          → suc j < (if b then suc (lower_bound earlier ts) else 0)
          → j < lower_bound earlier ts
      shorter true k = omega arith
      shorter false k = absurd (omega arith)

  later :
      (t : Transition)
      → ltb_ℤ (time_of gmt t) (time_of gmt sentry) ≡ false
      → time_of gmt sentry ≤ℤ time_of gmt t
  later t h = ground (arith, h)

  pub at_bound :
      (ts : List Transition) (u : Transition)
      → get_elem? ts (lower_bound earlier ts) ≡ some u
      → time_of gmt sentry ≤ℤ time_of gmt u
  unfolding lower_bound
  at_bound [] u e = absurd (ground (arith, e))
  at_bound (t ∷ ts) u e = elim (Bool-cases (earlier t)) [
    | inl f ↦ at_bound ts u (simp f at e)
    | inr f ↦
        subst (λ x. time_of gmt sentry ≤ℤ time_of gmt x) (some_same t u (simp f at e))
          (later t (earlier_lem t false f))
  ]

  pub bound-length : (ts : List Transition) → lower_bound earlier ts ≤ length ts
  unfolding lower_bound
  bound-length [] = omega arith
  bound-length (t ∷ ts) = ground (arith, bound-length ts)

  -- An entry before all those that are after the sentry.
  pub entry-IsLatest :
      (ts : List Transition) (i : ℕ) (t : Transition)
      → get_elem? ts i ≡ some t
      → time_of gmt t ≤ℤ time_of gmt sentry
      → ((j : ℕ) (u : Transition)
          → i < j
          → get_elem? ts j ≡ some u
          → time_of gmt sentry <ℤ time_of gmt u)
      → IsLatest gmt (time_of gmt sentry) ts i t
  entry-IsLatest ts i t e n l = record {
    entry_law = e;
    not_after = n;
    others = λ j u f h. elim (Bool-cases (leb j i)) [
      | inl g ↦ (leb_iff j i).0 g
      | inr g ↦ absurd (omega (arith, h, l j u (ground (arith, g)) f))
    ];
  }

pub get_last :
    (ts : List Transition) (i : ℕ) → i < length ts → (t : Transition) × (get_elem? ts i ≡ some t)
get_last [] i h = absurd (omega arith)
get_last (t ∷ ts) zero h = (t, refl)
get_last (t ∷ ts) (suc i) h = get_last ts i (omega arith)

pub get_none : (ts : List Transition) (i : ℕ) → get_elem? ts i ≡ none → length ts ≤ i
get_none [] i h = omega arith
get_none (t ∷ ts) zero h = absurd (ground (arith, h))
get_none (t ∷ ts) (suc i) h = omega (arith, get_none ts i h)

pub get_some :
    (ts : List Transition) (i : ℕ) (t : Transition) → get_elem? ts i ≡ some t → i < length ts
get_some [] i t h = absurd (ground (arith, h))
get_some (t ∷ ts) zero u h = omega arith
get_some (t ∷ ts) (suc i) u h = omega (arith, get_some ts i u h)
