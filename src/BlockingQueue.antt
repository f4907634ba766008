-- ===== src/BlockingQueue.antt =====
-- base/blocking_queue.h: an unbounded queue between threads. A call of `take` is a pass of its loop
-- for each time that it gets the mutex.
pub mod Flow
mod Tests
use ccnet.Prelude.{
  ◌≡◌, refl, ap, ◌⊎◌, inl, inr, Bool, true, false, not, Option, none, some, List, [], ◌∷◌, ◌++◌,
}
use ccnet.Prelude.Outcome.{Outcome, ok, ◌>>=◌, ◌>>◌, assert}
use ccnet.Condition.{Condition, Pthread, quiet, wait, notify}

pub record BlockingQueue {ℓ} (A : Type ℓ) : Type ℓ where
  pub queue : List A
  pub not_empty : Condition

-- A pass of the loop: nothing where the thread waits on, else what `take` returns.
pub record Pass {ℓ} (A : Type ℓ) : Type ℓ where
  pub result : Option A
  pub left : BlockingQueue A

module _ {ℓ} {A : Type ℓ} where
  unfoldable pub create : BlockingQueue A
  create = record { queue = []; not_empty = quiet }

  unfoldable pub put : Pthread → A → BlockingQueue A → BlockingQueue A
  put p x q = record { queue = q.queue ++ (x ∷ []); not_empty = notify p q.not_empty }

  abbrev pub is_empty : List A → Bool
  is_empty [] = true
  is_empty (_ ∷ _) = false

  abbrev take_from : List A → BlockingQueue A → Outcome (Pass A)
  take_from [] q = ok (record { result = none; left = record q { not_empty = wait q.not_empty } })
  take_from (x ∷ xs) q = do
    assert (not (is_empty (x ∷ xs)))
    ok (record { result = some x; left = record q { queue = xs } })

  unfoldable pub take : BlockingQueue A → Outcome (Pass A)
  take q = take_from q.queue q

  -- A pass on an empty queue waits, and any other returns the oldest item.
  pub take_elim {κ} :
      (P : Outcome (Pass A) → Type κ) (q : BlockingQueue A)
      → (q.queue ≡ []
          → P (ok (record { result = none; left = record q { not_empty = wait q.not_empty } })))
      → ((x : A) (xs : List A)
          → q.queue ≡ x ∷ xs
          → P (ok (record { result = some x; left = record q { queue = xs } })))
      → P (take q)
  unfolding take
  take_elim P q waits takes = cases q.queue refl
    where
      cases : (l : List A) → q.queue ≡ l → P (take_from l q)
      cases [] e = waits e
      cases (x ∷ xs) e = takes x xs e
