-- ===== src/LoopPool/RoundRobin.antt =====
-- net/event_loop_threadPool.cc: the turns of the loops.
use ccnet.Prelude.{
  ℕ, zero, suc, ◌+◌, ◌≤◌, ◌<◌, ◌≡◌, refl, sym, ap, ap₂, subst, ◌∙◌, true, some, List, [], ◌∷◌,
  arith, leb, if◌then◌else◌, length, get_elem?, take, slice,
}
use ccnet.Prelude.Outcome.{ok}
use ccnet.Prelude.{take_all}
use ccnet.LoopPool.{LoopPool, loop_at, next_loop, get_next_loop, take_loops}

next_slice :
    (xs : List ℕ) (i : ℕ) (x : ℕ) (j : ℕ)
    → get_elem? xs i ≡ some x
    → slice i (suc j) xs ≡ x ∷ slice (suc i) j xs
next_slice [] i x j h = absurd cc
next_slice (y ∷ ys) zero x j h = let e : y ≡ x = ground arith in ap (λ z. z ∷ take j ys) e
next_slice (y ∷ ys) (suc i) x j h = next_slice ys i x j h

there_is : (xs : List ℕ) (i : ℕ) → i < length xs → (x : ℕ) × (get_elem? xs i ≡ some x)
there_is [] i h = absurd (omega arith)
there_is (y ∷ ys) zero h = (y, refl)
there_is (y ∷ ys) (suc i) h = there_is ys i (omega arith)

-- The place after `i`, which is the first after the last.
abbrev place : List ℕ → ℕ → ℕ
place loops i = if leb (length loops) i then 0 else i

module _ (p : LoopPool) (up : p.started ≡ true) where
  at_place : ℕ → LoopPool
  at_place i = record p { next = i }

  next_eq :
      (i : ℕ) (x : ℕ)
      → i < length p.loops
      → get_elem? p.loops i ≡ some x
      → get_next_loop (at_place i) ≡ ok (x, at_place (place p.loops (suc i)))
  unfolding get_next_loop next_loop loop_at at_place
  next_eq i x h e = by p.loops refl
    where
      by :
          (ls : List ℕ)
          → p.loops ≡ ls
          → get_next_loop (at_place i) ≡ ok (x, at_place (place p.loops (suc i)))
      by [] f = absurd (omega (arith, ap length f))
      by (l ∷ ls) f = let g = ap (λ ys. get_elem? ys i) (sym f) ∙ e in simp (up, f, g)

  -- From a place on, the loops are taken in order up to the last.
  take_from :
      (n i : ℕ)
      → i + n ≤ length p.loops
      → i < length p.loops
      → take_loops n (at_place i) ≡ ok (slice i n p.loops, at_place (place p.loops (i + n)))
  unfolding take_loops
  take_from zero i h lt =
      ap (λ j. ok ([], at_place j)) {x = i} {y = place p.loops (i + 0)} (ground arith)
  take_from (suc zero) i h lt =
      let (x, e) = there_is p.loops i lt in
      simp (next_eq i x lt e) (
        ap₂ (λ ys j. ok (ys, at_place (place p.loops j))) {x = x ∷ []} {y = slice i 1 p.loops}
          {u = suc i} {v = i + 1} (sym (next_slice p.loops i x 0 e)) (omega arith))
  take_from (suc (suc n)) i h lt =
      let (x, e) = there_is p.loops i lt in
      let inside : place p.loops (suc i) ≡ suc i = ground arith in
      simp (next_eq i x lt e, inside, take_from (suc n) (suc i) (omega arith) (omega arith))
        (ap₂ (λ ys j. ok (ys, at_place (place p.loops j))) (sym (next_slice p.loops i x (suc n) e))
          (omega arith))

  -- In a started pool with loops, of which the first is next, as many choices as there are loops give
  -- each loop once, in order, and the first is next again.
  pub take_loops-length :
      0 < length p.loops → p.next ≡ 0 → take_loops (length p.loops) p ≡ ok (p.loops, p)
  unfolding at_place
  take_loops-length some_loop first =
      let back_to : place p.loops (0 + length p.loops) ≡ 0 = ground arith in
      subst (λ i. take_loops (length p.loops) (at_place i) ≡ ok (p.loops, at_place i)) (sym first)
        (take_from (length p.loops) 0 (omega arith) some_loop
          ∙ ap₂ (λ ys j. ok (ys, at_place j)) (take_all (length p.loops) p.loops (omega arith))
              back_to)
