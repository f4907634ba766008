-- ===== src/LoopPool.antt =====
-- net/event_loop_threadPool.cc: the loop that the next connection goes to. Loops are numbered.
pub mod RoundRobin
mod Tests
use ccnet.Prelude.{
  ℕ, zero, suc, ◌+◌, ◌-◌, ◌*◌, ◌/◌, ◌%◌, ◌^◌, ◌≤◌, ◌<◌, min, max, ◌≡◌, refl, sym, ap, ap₂, subst,
  ◌∙◌, ◌≡⟨◌⟩◌, ◌∎, ◌≢◌, ◌↔◌, ◌⊎◌, inl, inr, Bool, true, false, not, ◌&&◌, ◌||◌, Option, none, some,
  List, [], ◌∷◌, ◌++◌, map, append-nil, append_assoc, arith, ltb, leb, ◌==◌, if◌then◌else◌, ltb_iff,
  leb_iff, ==_iff, ==_refl, Bool-cases, Option-cases, length, get_elem?, get_or, take, drop,
  replicate, slice, write_at, length-append, length-take, length-drop, length-replicate,
}
use ccnet.Prelude.Outcome.{Outcome, ok, assert_failed, length_error, ◌>>=◌, ◌>>◌, assert, value_or}

pub record LoopPool : Type 0 where
  pub base_loop : ℕ
  pub loops : List ℕ
  pub started : Bool
  pub next : ℕ

-- An index outside the vector is undefined in C++; it stands as a failed assertion.
unfoldable pub loop_at : List ℕ → ℕ → Outcome ℕ
loop_at loops i = by (get_elem? loops i)
  where
    by : Option ℕ → Outcome ℕ
    by none = assert_failed
    by (some l) = ok l

unfoldable pub next_loop : LoopPool → Outcome (ℕ × LoopPool)
next_loop p = by p.loops
  where
    by : List ℕ → Outcome (ℕ × LoopPool)
    by [] = ok (p.base_loop, p)
    by (l ∷ ls) = do
      loop ← loop_at p.loops p.next
      let next = suc p.next
      ok (loop, record p { next = if leb (length p.loops) next then 0 else next })

unfoldable pub get_next_loop : LoopPool → Outcome (ℕ × LoopPool)
get_next_loop p = do assert p.started; next_loop p

unfoldable pub get_loop_for_hash : LoopPool → ℕ → Outcome ℕ
get_loop_for_hash p hash_code = by p.loops
  where
    by : List ℕ → Outcome ℕ
    by [] = ok p.base_loop
    by (l ∷ ls) = loop_at p.loops (hash_code % length p.loops)

unfoldable pub get_all_loops : LoopPool → Outcome (List ℕ)
get_all_loops p = do assert p.started; ok (by p.loops)
  where
    by : List ℕ → List ℕ
    by [] = p.base_loop ∷ []
    by (l ∷ ls) = l ∷ ls

-- The loops of the next `n` connections.
unfoldable pub take_loops : ℕ → LoopPool → Outcome (List ℕ × LoopPool)
take_loops zero p = ok ([], p)
take_loops (suc n) p = do (l, q) ← get_next_loop p; (ls, r) ← take_loops n q; ok (l ∷ ls, r)
