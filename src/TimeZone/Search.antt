-- ===== src/TimeZone/Search.antt =====
-- base/time_zone.cc: `findLocaltime`, and the last transition that is not after the sentry.
use ccnet.Prelude.{
  ℕ, zero, suc, ◌-◌, ◌<◌, ◌≡◌, refl, sym, ap, subst, ◌∙◌, ◌⊎◌, inl, inr, Bool, true, false, none,
  some, List, [], ◌∷◌, arith, ◌==◌, ltb_iff, ==_iff, Bool-cases, Option-cases, length, get_elem?,
}
use ccnet.Prelude.Outcome.{Outcome, ok}
use ccnet.Prelude.Int.{◌≤ℤ◌, ◌<ℤ◌}
use ccnet.TimeZone.{
  Transition, LocalTime, Data, comp, comp_equal, lower_bound, localtime_at, localtime_of,
  previous_of, find_among, find_from, find_localtime,
}
use ccnet.TimeZone.Bound.{
  before_bound, bound-length, IsLatest, at_bound, entry-IsLatest, time_of, comp_lem, comp_equal_lem,
  IsSorted, some_same, get_last, get_none, get_some,
}

-- What the search returns where some transition is not after the sentry.
unfoldable pub Latest : Data → Transition → Bool → Outcome LocalTime → Type 0
Latest zone sentry gmt o =
    (i : ℕ) × (t : Transition) × IsLatest gmt (time_of gmt sentry) zone.transitions i t
    × (o ≡ localtime_at zone t.localtime_idx)

previous_lem : (ts : List Transition) (n : ℕ) → 0 < n → previous_of ts n ≡ ok (get_elem? ts (n - 1))
unfolding previous_of
previous_lem ts zero h = absurd (omega arith)
previous_lem ts (suc n) h = ap (λ k. ok (get_elem? ts k)) {x = n} {y = suc n - 1} (omega arith)

module _ (zone : Data) (sentry : Transition) (gmt : Bool)
    (sorted : IsSorted gmt zone.transitions) where
  abbrev bound : ℕ
  bound = lower_bound (λ t. comp gmt t sentry) zone.transitions

  find_among-Latest :
      (t : Transition)
      → get_elem? zone.transitions 0 ≡ some t
      → time_of gmt t ≤ℤ time_of gmt sentry
      → Latest zone sentry gmt (find_among zone sentry gmt)
  unfolding find_among Latest IsSorted localtime_of localtime_at
  find_among-Latest t e h = elim (Option-cases (get_elem? zone.transitions bound)) [
    | inl n ↦ at_end n
    | inr (u, f) ↦ elim (Bool-cases (comp_equal gmt sentry u)) [
      | inl g ↦ (
        bound,
        u,
        entry-IsLatest gmt sentry zone.transitions bound u f (equal_le u g)
            (after u f (equal_le u g)),
        simp (f, g, find_among) refl,
      )
      | inr g ↦ before u f g (different u f g)
    ]
  ]
    where
      equal_le :
          (u : Transition) → comp_equal gmt sentry u ≡ true → time_of gmt u ≤ℤ time_of gmt sentry
      equal_le u g = ground (arith, sym (comp_equal_lem gmt sentry u) ∙ g)

      different :
          (u : Transition)
          → get_elem? zone.transitions bound ≡ some u
          → comp_equal gmt sentry u ≡ false
          → time_of gmt sentry <ℤ time_of gmt u
      different u f g =
          ground
            (arith, sym (comp_equal_lem gmt sentry u) ∙ g, at_bound gmt sentry zone.transitions u f)

      after :
          (u : Transition)
          → get_elem? zone.transitions bound ≡ some u
          → time_of gmt u ≤ℤ time_of gmt sentry
          → (j : ℕ) (v : Transition) → bound < j
          → get_elem? zone.transitions j ≡ some v
          → time_of gmt sentry <ℤ time_of gmt v
      after u f g j v k w =
          omega (arith, at_bound gmt sentry zone.transitions u f, sorted bound j u v k f w)

      at_end :
          get_elem? zone.transitions bound ≡ none
          → Latest zone sentry gmt (find_among zone sentry gmt)
      at_end n =
          let full : bound ≡ length zone.transitions =
            omega (
              arith,
              get_none zone.transitions bound n,
              bound-length gmt sentry zone.transitions,
            ) in
          let (v, f) =
            get_last zone.transitions (length zone.transitions - 1)
              (omega (arith, get_some zone.transitions 0 t e)) in
          let w : time_of gmt v ≤ℤ time_of gmt sentry = omega (
            arith,
            before_bound gmt sentry zone.transitions (length zone.transitions - 1) v
                (omega (arith, full, get_some zone.transitions 0 t e)) f,
          ) in
          (
            length zone.transitions - 1,
            v,
            entry-IsLatest gmt sentry zone.transitions (length zone.transitions - 1) v f w
                (λ j u k g. absurd (omega (arith, get_some zone.transitions j u g))),
            simp (n, f, find_among, localtime_of) refl,
          )

      positive :
          (u : Transition) (n : ℕ)
          → get_elem? zone.transitions n ≡ some u
          → time_of gmt sentry <ℤ time_of gmt u
          → 0 < n
      positive u zero f g = absurd (
          omega
            (arith, subst (λ x. time_of gmt x ≤ℤ time_of gmt sentry) (some_same t u (sym e ∙ f)) h))
      positive u (suc n) f g = omega arith

      beyond :
          (u : Transition)
          → get_elem? zone.transitions bound ≡ some u
          → time_of gmt sentry <ℤ time_of gmt u
          → (j : ℕ) (x : Transition) → bound - 1 < j
          → get_elem? zone.transitions j ≡ some x
          → time_of gmt sentry <ℤ time_of gmt x
      beyond u f g j x l m = elim (Bool-cases (j == bound)) [
        | inl k ↦
            subst (λ v. time_of gmt sentry <ℤ time_of gmt v)
              (some_same u x
                (sym f ∙ ap (get_elem? zone.transitions) (sym ((==_iff j bound).0 k)) ∙ m))
              g
        | inr k ↦ omega (arith, g, sorted bound j u x (ground (arith, k, l)) f m)
      ]

      before :
          (u : Transition)
          → get_elem? zone.transitions bound ≡ some u
          → comp_equal gmt sentry u ≡ false
          → time_of gmt sentry <ℤ time_of gmt u
          → Latest zone sentry gmt (find_among zone sentry gmt)
      before u f d g =
          let some_before : 0 < bound = positive u bound f g in
          let (v, k) =
            get_last zone.transitions (bound - 1)
              (omega (arith, get_some zone.transitions bound u f)) in
          let w : time_of gmt v ≤ℤ time_of gmt sentry =
            omega (arith, before_bound gmt sentry zone.transitions (bound - 1) v (omega arith) k) in
          (
            bound - 1,
            v,
            entry-IsLatest gmt sentry zone.transitions (bound - 1) v k w (beyond u f g),
            simp
                (f, d, previous_lem zone.transitions bound some_before, k, find_among, localtime_of)
                refl,
          )

-- In a zone whose transitions go up in the time that is compared, the search returns the local time
-- of the last transition that is not after the sentry or, where all are after it, the first one.
pub find_localtime-Latest :
    (zone : Data) (sentry : Transition) (gmt : Bool)
    → IsSorted gmt zone.transitions
    → (((j : ℕ) (u : Transition)
          → get_elem? zone.transitions j ≡ some u
          → time_of gmt sentry <ℤ time_of gmt u)
        × (find_localtime zone sentry gmt ≡ localtime_at zone 0))
      ⊎ Latest zone sentry gmt (find_localtime zone sentry gmt)
unfolding find_localtime IsSorted
find_localtime-Latest zone sentry gmt sorted = cases zone.transitions refl
  where
    all_after :
        (t : Transition)
        → get_elem? zone.transitions 0 ≡ some t
        → time_of gmt sentry <ℤ time_of gmt t
        → (j : ℕ) (u : Transition) → get_elem? zone.transitions j ≡ some u
        → time_of gmt sentry <ℤ time_of gmt u
    all_after t e h zero u f =
        subst (λ x. time_of gmt sentry <ℤ time_of gmt x) (some_same t u (sym e ∙ f)) h
    all_after t e h (suc j) u f = omega (arith, h, sorted 0 (suc j) t u (omega arith) e f)

    cases :
        (ts : List Transition)
        → zone.transitions ≡ ts
        → (((j : ℕ) (u : Transition)
              → get_elem? zone.transitions j ≡ some u
              → time_of gmt sentry <ℤ time_of gmt u)
            × (find_from ts zone sentry gmt ≡ localtime_at zone 0))
          ⊎ Latest zone sentry gmt (find_from ts zone sentry gmt)
    cases [] e =
        inl (λ j u f. absurd (omega (arith, get_some zone.transitions j u f, ap length e)), refl)
    cases (t ∷ ts) e = elim (Bool-cases (comp gmt sentry t)) [
      | inl f ↦ inl (
        all_after t (ap (λ l. get_elem? l 0) e) ((ltb_iff _ _).0 (sym (comp_lem gmt sentry t) ∙ f)),
        rw f refl,
      )
      | inr f ↦ inr (
          rw f (
            find_among-Latest zone sentry gmt sorted t (ap (λ l. get_elem? l 0) e)
              (ground (arith, sym (comp_lem gmt sentry t) ∙ f))))
    ]
