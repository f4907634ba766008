-- ===== src/BoundedBlockingQueue.antt =====
-- base/bounded_blocking_queue.h: a bounded queue between threads. A call is a pass of its loop for
-- each time that it gets the mutex. `boost::circular_buffer` is a parameter.
pub mod Flow
mod Tests
use ccnet.Prelude.{
  ℕ, ◌≡◌, ◌==◌, Bool, true, false, not, Option, none, some, List, [], ◌∷◌, ◌++◌, length,
}
use ccnet.Prelude.Outcome.{Outcome, ok, assert_failed, ◌>>=◌, ◌>>◌, assert}
use ccnet.Condition.{Condition, Pthread, quiet, wait, notify}

abbrev pub is_nil {ℓ} : {A : Type ℓ} → List A → Bool
is_nil [] = true
is_nil (_ ∷ _) = false

-- What the documentation of `boost::circular_buffer` says of the calls, by the items in their order.
pub record CircularBuffer {ℓ} (A Buf : Type ℓ) : Type ℓ where
  pub make : ℕ → Buf
  pub items : Buf → List A
  pub max_items : Buf → ℕ
  pub is_full : Buf → Bool
  pub is_empty : Buf → Bool
  pub front : Buf → Option A
  pub push_back : A → Buf → Buf
  pub pop_front : Buf → Buf
  pub items_make : (n : ℕ) → items (make n) ≡ []
  pub max_items_make : (n : ℕ) → max_items (make n) ≡ n
  pub full_law : (b : Buf) → is_full b ≡ (length (items b) == max_items b)
  pub empty_law : (b : Buf) → is_empty b ≡ is_nil (items b)
  pub front_law : (b : Buf) (x : A) (xs : List A) → items b ≡ x ∷ xs → front b ≡ some x
  pub push_law : (b : Buf) (x : A) → is_full b ≡ false → items (push_back x b) ≡ items b ++ (x ∷ [])
  pub push_max : (b : Buf) (x : A) → max_items (push_back x b) ≡ max_items b
  pub pop_law : (b : Buf) (x : A) (xs : List A) → items b ≡ x ∷ xs → items (pop_front b) ≡ xs
  pub pop_max : (b : Buf) → max_items (pop_front b) ≡ max_items b

pub record BoundedBlockingQueue {ℓ} (Buf : Type ℓ) : Type ℓ where
  pub queue : Buf
  pub not_empty : Condition
  pub not_full : Condition

-- What a pass of `put` or `take` did: `none` where the thread waits on.
pub record Pass {ℓ} (A Buf : Type ℓ) : Type ℓ where
  pub result : Option A
  pub left : BoundedBlockingQueue Buf

module _ {ℓ} {A Buf : Type ℓ} (c : CircularBuffer A Buf) where
  unfoldable pub create : ℕ → BoundedBlockingQueue Buf
  create max_size = record { queue = c.make max_size; not_empty = quiet; not_full = quiet }

  unfoldable pub put : Pthread → A → BoundedBlockingQueue Buf → Outcome (Pass A Buf)
  put p x q = elim (c.is_full q.queue) [
    | true ↦ ok (record { result = none; left = record q { not_full = wait q.not_full } })
    | false ↦ (do
      assert (not (c.is_full q.queue))
      ok (record {
        result = some x;
        left = record q { queue = c.push_back x q.queue; not_empty = notify p q.not_empty };
      }))
  ]

  unfoldable pub take : Pthread → BoundedBlockingQueue Buf → Outcome (Pass A Buf)
  take p q = elim (c.is_empty q.queue) [
    | true ↦ ok (record { result = none; left = record q { not_empty = wait q.not_empty } })
    | false ↦ (do
      assert (not (c.is_empty q.queue))
      elim (c.front q.queue) [
        | none ↦ assert_failed
        | some x ↦ ok (record {
          result = some x;
          left = record q { queue = c.pop_front q.queue; not_full = notify p q.not_full };
        })
      ])
  ]

  unfoldable pub size : BoundedBlockingQueue Buf → ℕ
  size q = length (c.items q.queue)

  unfoldable pub full : BoundedBlockingQueue Buf → Bool
  full q = c.is_full q.queue

  unfoldable pub empty : BoundedBlockingQueue Buf → Bool
  empty q = c.is_empty q.queue

  unfoldable pub capacity : BoundedBlockingQueue Buf → ℕ
  capacity q = c.max_items q.queue
