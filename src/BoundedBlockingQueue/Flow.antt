-- ===== src/BoundedBlockingQueue/Flow.antt =====
-- base/bounded_blocking_queue.h: calls of several threads, with their items and waits.
use ccnet.Prelude.{
  ◌≢◌, ℕ, suc, ◌-◌, ◌≤◌, ◌<◌, ◌≡◌, refl, sym, ap, ◌∙◌, ==_iff, Bool-cases, inl, inr, Option, none,
  some, List, [], ◌∷◌, ◌++◌, append-nil, append_assoc, arith, length, length-append,
}
use ccnet.Prelude.Outcome.{Outcome, ok, value_or}
use ccnet.Condition.{
  Pthread, wait, notify, resume, wake_spuriously, IsCovered, notify-IsCovered, resume-IsCovered,
  wait-IsCovered, wake_spuriously-IsCovered, weaken-IsCovered,
}
use ccnet.BoundedBlockingQueue.{CircularBuffer, BoundedBlockingQueue, Pass, create, put, take}

module _ {ℓ} {A Buf : Type ℓ} (c : CircularBuffer A Buf) (p : Pthread) where
  -- A pass that waits, or one that is done.
  put_elim {κ} :
      (P : Outcome (Pass A Buf) → Type κ) (x : A) (q : BoundedBlockingQueue Buf)
      → (length (c.items q.queue) ≡ c.max_items q.queue
          → P (ok (record { result = none; left = record q { not_full = wait q.not_full } })))
      → ((b : Buf)
          → c.items b ≡ c.items q.queue ++ (x ∷ [])
          → c.max_items b ≡ c.max_items q.queue
          → length (c.items q.queue) ≢ c.max_items q.queue
          → P (
              ok (record {
                result = some x;
                left = record q { queue = b; not_empty = notify p q.not_empty };
              })))
      → P (put c p x q)
  unfolding put
  put_elim P x q waits puts = elim (Bool-cases (c.is_full q.queue)) [
    | inl e ↦
        simp (e, put)
          (waits (
            (==_iff (length (c.items q.queue)) (c.max_items q.queue)).0
              (sym (c.full_law q.queue) ∙ e)))
    | inr e ↦
        simp (e, put)
          (puts (c.push_back x q.queue) (c.push_law q.queue x e) (c.push_max q.queue x)
            (λ k. ground (arith, e, c.full_law q.queue, k)))
  ]

  take_elim {κ} :
      (P : Outcome (Pass A Buf) → Type κ) (q : BoundedBlockingQueue Buf)
      → (c.items q.queue ≡ []
          → P (ok (record { result = none; left = record q { not_empty = wait q.not_empty } })))
      → ((x : A) (b : Buf)
          → c.items q.queue ≡ x ∷ c.items b
          → c.max_items b ≡ c.max_items q.queue
          → P (
              ok (record {
                result = some x;
                left = record q { queue = b; not_full = notify p q.not_full };
              })))
      → P (take c p q)
  unfolding take
  take_elim P q waits takes = cases (c.items q.queue) refl
    where
      cases : (l : List A) → c.items q.queue ≡ l → P (take c p q)
      cases [] e = simp (c.empty_law q.queue, e, take) (waits e)
      cases (x ∷ xs) e =
          simp (c.empty_law q.queue, e, c.front_law q.queue x xs e, take)
            (takes x (c.pop_front q.queue) (e ∙ ap (λ l. x ∷ l) (sym (c.pop_law q.queue x xs e)))
              (c.pop_max q.queue))

  -- Within the bound `n`; and while a thread waits, as many others are woken as there are items for
  -- the consumers, and as there is room for the producers.
  pub record IsFair (n : ℕ) (q : BoundedBlockingQueue Buf) : Type 0 where
    pub bound : c.max_items q.queue ≡ n
    pub inside : length (c.items q.queue) ≤ n
    pub consumers : IsCovered q.not_empty (length (c.items q.queue))
    pub producers : IsCovered q.not_full (n - length (c.items q.queue))

  abbrev passed : BoundedBlockingQueue Buf → Outcome (Pass A Buf) → Pass A Buf
  passed q o = value_or (record { result = none; left = q }) o

  abbrev pub put_pass : A → BoundedBlockingQueue Buf → Pass A Buf
  put_pass x q = passed q (put c p x q)

  abbrev pub take_pass : BoundedBlockingQueue Buf → Pass A Buf
  take_pass q = passed q (take c p q)

  -- A pass of a `put` by a thread that was woken frees its place among the woken.
  put_pass-IsFair :
      (n : ℕ) (x : A) (q : BoundedBlockingQueue Buf)
      → c.max_items q.queue ≡ n
      → length (c.items q.queue) ≤ n
      → IsCovered q.not_empty (length (c.items q.queue))
      → IsCovered q.not_full (n - length (c.items q.queue) - 1)
      → IsFair n (put_pass x q).left
  put_pass-IsFair n x q m i h k =
      put_elim (λ o. IsFair n (passed q o).left) x q
        (λ e. record {
          bound = m;
          inside = i;
          consumers = h;
          producers = weaken-IsCovered _ _ 0 (omega arith) (wait-IsCovered q.not_full);
        })
        (λ b e f l.
          let g : length (c.items b) ≡ suc (length (c.items q.queue)) =
            omega (arith, ap length e, length-append (c.items q.queue) (x ∷ [])) in
          record {
            bound = f ∙ m;
            inside = grind (arith, g, l, m, i);
            consumers =
                weaken-IsCovered _ _ _ (omega (arith, g)) (notify-IsCovered p q.not_empty _ h);
            producers = weaken-IsCovered _ _ _ (omega (arith, g)) k;
          })

  take_pass-IsFair :
      (n : ℕ) (q : BoundedBlockingQueue Buf)
      → c.max_items q.queue ≡ n
      → length (c.items q.queue) ≤ n
      → IsCovered q.not_empty (length (c.items q.queue) - 1)
      → IsCovered q.not_full (n - length (c.items q.queue))
      → IsFair n (take_pass q).left
  take_pass-IsFair n q m i h k =
      take_elim (λ o. IsFair n (passed q o).left) q
        (λ e. record {
          bound = m;
          inside = i;
          consumers =
              weaken-IsCovered _ _ 0 (omega (arith, ap length e)) (wait-IsCovered q.not_empty);
          producers = k;
        })
        (λ x b e f. record {
          bound = f ∙ m;
          inside = omega (arith, ap length e);
          consumers = weaken-IsCovered _ _ _ (omega (arith, ap length e)) h;
          producers =
              weaken-IsCovered _ _ _ (omega (arith, ap length e))
                (notify-IsCovered p q.not_full _ k);
        })

  abbrev pub put_resumed : BoundedBlockingQueue Buf → BoundedBlockingQueue Buf
  put_resumed q = record q { not_full = resume q.not_full }

  abbrev pub take_resumed : BoundedBlockingQueue Buf → BoundedBlockingQueue Buf
  take_resumed q = record q { not_empty = resume q.not_empty }

  infix 40 ◌⟶◌
  -- A step of some thread: a first pass, a pass after a wakeup, or a wakeup without a notification.
  pub data ◌⟶◌ : BoundedBlockingQueue Buf → BoundedBlockingQueue Buf → Type ℓ where
    puts : (q : BoundedBlockingQueue Buf) (x : A) → q ⟶ (put_pass x q).left
    puts_again :
        (q : BoundedBlockingQueue Buf) (x : A)
        → 0 < q.not_full.woken
        → q ⟶ (put_pass x (put_resumed q)).left
    takes : (q : BoundedBlockingQueue Buf) → q ⟶ (take_pass q).left
    takes_again :
        (q : BoundedBlockingQueue Buf)
        → 0 < q.not_empty.woken
        → q ⟶ (take_pass (take_resumed q)).left
    producer_wakes :
        (q : BoundedBlockingQueue Buf)
        → 0 < q.not_full.waiting
        → q ⟶ record q { not_full = wake_spuriously q.not_full }
    consumer_wakes :
        (q : BoundedBlockingQueue Buf)
        → 0 < q.not_empty.waiting
        → q ⟶ record q { not_empty = wake_spuriously q.not_empty }

  step-IsFair : (n : ℕ) {q r : BoundedBlockingQueue Buf} → q ⟶ r → IsFair n q → IsFair n r
  step-IsFair n (puts q x) h =
      put_pass-IsFair n x q h.bound h.inside h.consumers
        (weaken-IsCovered _ _ _ (omega arith) h.producers)
  step-IsFair n (puts_again q x o) h =
      put_pass-IsFair n x (put_resumed q) h.bound h.inside h.consumers
        (resume-IsCovered q.not_full _ o h.producers)
  step-IsFair n (takes q) h =
      take_pass-IsFair n q h.bound h.inside (weaken-IsCovered _ _ _ (omega arith) h.consumers)
        h.producers
  step-IsFair n (takes_again q o) h =
      take_pass-IsFair n (take_resumed q) h.bound h.inside
        (resume-IsCovered q.not_empty _ o h.consumers) h.producers
  step-IsFair n (producer_wakes q o) h = record {
    bound = h.bound;
    inside = h.inside;
    consumers = h.consumers;
    producers = wake_spuriously-IsCovered q.not_full _ o h.producers;
  }
  step-IsFair n (consumer_wakes q o) h = record {
    bound = h.bound;
    inside = h.inside;
    consumers = wake_spuriously-IsCovered q.not_empty _ o h.consumers;
    producers = h.producers;
  }

  abbrev pub listed : Option A → List A
  listed none = []
  listed (some x) = x ∷ []

  put_keeps :
      (x : A) (q : BoundedBlockingQueue Buf)
      → c.items (put_pass x q).left.queue ≡ c.items q.queue ++ listed (put_pass x q).result
  put_keeps x q =
      put_elim
        (λ o. c.items (passed q o).left.queue ≡ c.items q.queue ++ listed (passed q o).result) x q
        (λ e. sym (append-nil _)) (λ b e f l. e)

  take_keeps :
      (q : BoundedBlockingQueue Buf)
      → c.items q.queue ≡ listed (take_pass q).result ++ c.items (take_pass q).left.queue
  take_keeps q =
      take_elim
        (λ o. c.items q.queue ≡ listed (passed q o).result ++ c.items (passed q o).left.queue) q
        (λ e. refl) (λ x b e f. e)

  -- What a step puts in and what it takes out.
  unfoldable pub given : {q r : BoundedBlockingQueue Buf} → q ⟶ r → List A
  given (puts q x) = listed (put_pass x q).result
  given (puts_again q x o) = listed (put_pass x (put_resumed q)).result
  given (takes q) = []
  given (takes_again q o) = []
  given (producer_wakes q o) = []
  given (consumer_wakes q o) = []

  unfoldable pub got : {q r : BoundedBlockingQueue Buf} → q ⟶ r → List A
  got (puts q x) = []
  got (puts_again q x o) = []
  got (takes q) = listed (take_pass q).result
  got (takes_again q o) = listed (take_pass (take_resumed q)).result
  got (producer_wakes q o) = []
  got (consumer_wakes q o) = []

  step_keeps :
      {q r : BoundedBlockingQueue Buf} (s : q ⟶ r)
      → c.items q.queue ++ given s ≡ got s ++ c.items r.queue
  unfolding given got
  step_keeps (puts q x) = sym (put_keeps x q)
  step_keeps (puts_again q x o) = sym (put_keeps x (put_resumed q))
  step_keeps (takes q) = append-nil _ ∙ take_keeps q
  step_keeps (takes_again q o) = append-nil _ ∙ take_keeps (take_resumed q)
  step_keeps (producer_wakes q o) = append-nil _
  step_keeps (consumer_wakes q o) = append-nil _

  -- Any steps, with what they put in and what they took out.
  pub data Run
      : BoundedBlockingQueue Buf → List A → List A → BoundedBlockingQueue Buf → Type ℓ where
    rests : (q : BoundedBlockingQueue Buf) → Run q [] [] q
    goes_on :
        {q r t : BoundedBlockingQueue Buf} {xs ys : List A} (s : q ⟶ r)
        → Run r xs ys t
        → Run q (given s ++ xs) (got s ++ ys) t

  run_from :
      (n : ℕ) {q r : BoundedBlockingQueue Buf} {xs ys : List A}
      → IsFair n q
      → Run q xs ys r
      → (c.items q.queue ++ xs ≡ ys ++ c.items r.queue) × IsFair n r
  run_from n h (rests q) = (append-nil _, h)
  run_from n h (goes_on {q = q} {r = m} {xs = xs} {ys = ys} s l) =
      let (e, f) = run_from n (step-IsFair n s h) l in
      (
        sym (append_assoc (c.items q.queue) (given s) xs)
            ∙ ap (λ z. z ++ xs) (step_keeps s)
            ∙ append_assoc (got s) (c.items m.queue) xs
            ∙ ap (λ z. got s ++ z) e
            ∙ sym (append_assoc (got s) ys _),
        f,
      )

  -- After any interleaving of puts, takes and wakeups on a new queue of `n` places, over a circular
  -- buffer with the laws of its documentation: what was taken and what is still there are together
  -- what was put, in that order; there are never more than `n` items; and while a consumer or a
  -- producer waits, as many of its kind are woken as there are items or free places.
  pub run-IsFair :
      (n : ℕ) {q : BoundedBlockingQueue Buf} {xs ys : List A}
      → Run (create c n) xs ys q
      → (xs ≡ ys ++ c.items q.queue) × IsFair n q
  unfolding create
  run-IsFair n {xs = xs} r =
      let (e, f) =
        run_from n
          (record {
            bound = c.max_items_make n;
            inside = omega (arith, ap length (c.items_make n));
            consumers = λ w. absurd (omega arith);
            producers = λ w. absurd (omega arith);
          })
          r in
      (ap (λ l. l ++ xs) (sym (c.items_make n)) ∙ e, f)
