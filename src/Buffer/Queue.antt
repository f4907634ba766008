-- ===== src/Buffer/Queue.antt =====
-- net/buffer.h: the buffer and a queue of bytes, under the same calls.
use mathlib.Core.Option
use ccnet.Prelude.Outcome.{Outcome, ok, assert_failed, ◌>>=◌}
use ccnet.Buffer.{
  Buffer, append, retrieve, retrieve_all, unwrite, cheap_prepend, max_size, readable_bytes,
}
use ccnet.Buffer.Window.{IsValid, contents, length-contents}
use ccnet.Buffer.Operations.{Holds, Appended, Leaves, append_total, retrieve-Leaves, unwrite-Leaves}
use ccnet.Prelude.{
  Bool-cases, subst, ℕ, ◌+◌, ◌-◌, ◌≤◌, ◌<◌, ◌≡◌, refl, sym, inl, inr, List, [], ◌∷◌, ◌++◌, arith,
  length, take, drop, max, Option, none, some, leb, if◌then◌else◌,
}

-- A caller's operations that do not depend on the place of the bytes in memory.
pub data Op : Type 0 where
  appends : List ℕ → Op
  retrieves : ℕ → Op
  retrieves_all : Op
  unwrites : ℕ → Op

unfoldable pub step : Buffer → Op → Outcome Buffer
step b (appends xs) = append b xs
step b (retrieves len) = retrieve b len
step b retrieves_all = ok (retrieve_all b)
step b (unwrites len) = unwrite b len

unfoldable pub run : Buffer → List Op → Outcome Buffer
run b [] = ok b
run b (op ∷ ops) = step b op >>= λ c. run c ops

-- The same on a queue of bytes; taking more than there is is an error.
unfoldable pub step_queue : List ℕ → Op → Option (List ℕ)
step_queue q (appends xs) = some (q ++ xs)
step_queue q (retrieves len) = if leb len (length q) then some (drop len q) else none
step_queue q retrieves_all = some []
step_queue q (unwrites len) = if leb len (length q) then some (take (length q - len) q) else none

unfoldable pub run_queue : List ℕ → List Op → Option (List ℕ)
run_queue q [] = some q
run_queue q (op ∷ ops) = Option.bind (step_queue q op) λ r. run_queue r ops

-- The bytes that the operations append in all.
abbrev pub appended : List Op → ℕ
appended [] = 0
appended (appends xs ∷ ops) = length xs + appended ops
appended (retrieves _ ∷ ops) = appended ops
appended (retrieves_all ∷ ops) = appended ops
appended (unwrites _ ∷ ops) = appended ops

appended-cons : (op : Op) (ops : List Op) → appended (op ∷ ops) ≡ appended (op ∷ []) + appended ops
appended-cons (appends xs) ops = omega arith
appended-cons (retrieves len) ops = omega arith
appended-cons retrieves_all ops = omega arith
appended-cons (unwrites len) ops = omega arith

-- The call fails its assertion where the queue has no answer, and else holds the queue's bytes.
abbrev pub Refines : Outcome Buffer → Option (List ℕ) → Type 0
Refines r none = r ≡ assert_failed
Refines r (some q) = Holds q r

-- The same for one step, which moves the write index by at most `n`.
abbrev Steps : Buffer → ℕ → Outcome Buffer → Option (List ℕ) → Type 0
Steps b n r none = r ≡ assert_failed
Steps b n r (some q) =
    (c : Buffer) × (r ≡ ok c)
    × IsValid c
    × (contents c ≡ q)
    × (max cheap_prepend c.writer_index ≤ max cheap_prepend b.writer_index + n)

Leaves-Steps : {b : Buffer} {q : List ℕ} {r : Outcome Buffer} → Leaves b q r → Steps b 0 r (some q)
Leaves-Steps h = (h.result, h.returns, h.valid, h.holds, omega (arith, h.no_later))

module _ (b : Buffer) (v : IsValid b) where
  retrieve_beyond : (len : ℕ) → readable_bytes b < len → retrieve b len ≡ assert_failed
  unfolding retrieve
  retrieve_beyond len h = ground arith

  unwrite_beyond : (len : ℕ) → readable_bytes b < len → unwrite b len ≡ assert_failed
  unfolding unwrite
  unwrite_beyond len h = ground arith

  -- The operations that take a length split on whether there is as much to take.
  taking_Steps :
      (len : ℕ) (q : List ℕ) (r : Outcome Buffer)
      → (len ≤ readable_bytes b → Leaves b q r)
      → (readable_bytes b < len → r ≡ assert_failed)
      → Steps b 0 r (if leb len (length (contents b)) then some q else none)
  taking_Steps len q r within beyond = elim (Bool-cases (leb len (length (contents b)))) [
    | inl e ↦ rw e (Leaves-Steps (within (ground (arith, length-contents b v))))
    | inr e ↦ rw e (beyond (ground (arith, length-contents b v)))
  ]

  step-Steps :
      (op : Op)
      → max cheap_prepend b.writer_index + appended (op ∷ []) ≤ max_size
      → Steps b (appended (op ∷ [])) (step b op) (step_queue (contents b) op)
  unfolding step step_queue
  step-Steps (appends xs) fits =
      let a : Appended b xs (append b xs) = append_total b xs v (omega arith) in
      (a.result, a.returns, a.valid, a.holds, omega (arith, a.no_later))
  step-Steps (retrieves len) fits =
      taking_Steps len _ _ (retrieve-Leaves b len v) (retrieve_beyond len)
  step-Steps retrieves_all fits = (
    retrieve_all b,
    refl,
    unfold retrieve_all in omega arith,
    unfold retrieve_all in refl,
    unfold retrieve_all in omega arith,
  )
  step-Steps (unwrites len) fits =
      taking_Steps len _ _
        (λ h.
          subst (λ n. Leaves b (take (n - len) (contents b)) (unwrite b len))
            (sym (length-contents b v)) (unwrite-Leaves b len v h))
        (unwrite_beyond len)

run_of_Steps :
    (b : Buffer) (n : ℕ) (ops : List Op) (r : Outcome Buffer) (o : Option (List ℕ))
    → ((c : Buffer)
        → IsValid c
        → max cheap_prepend c.writer_index ≤ max cheap_prepend b.writer_index + n
        → Refines (run c ops) (run_queue (contents c) ops))
    → Steps b n r o
    → Refines (r >>= λ c. run c ops) (Option.bind o λ q. run_queue q ops)
unfolding Option.bind
run_of_Steps b n ops r none rest s = rw s
run_of_Steps b n ops r (some q) rest (c, e, v, h, m) = rw (e, ← h) (rest c v m)

-- On a valid buffer whose bytes, with all that the operations append, fit into a vector, any
-- sequence of operations returns a valid buffer that holds what the queue holds, and fails an
-- assertion exactly where the queue has no answer.
pub run-Refines :
    (ops : List Op) (b : Buffer)
    → IsValid b
    → max cheap_prepend b.writer_index + appended ops ≤ max_size
    → Refines (run b ops) (run_queue (contents b) ops)
unfolding run run_queue
run-Refines [] b v fits = record { result = b; returns = refl; valid = v; holds = refl }
run-Refines (op ∷ ops) b v fits =
    run_of_Steps b (appended (op ∷ [])) ops (step b op) (step_queue (contents b) op)
      (λ c vc m. run-Refines ops c vc (omega (arith, appended-cons op ops)))
      (step-Steps b v op (omega (arith, appended-cons op ops)))
