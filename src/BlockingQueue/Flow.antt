-- ===== src/BlockingQueue/Flow.antt =====
-- base/blocking_queue.h: calls of several threads, with their items and waits.
use ccnet.Prelude.{
  ◌-◌, ◌<◌, ◌≡◌, refl, sym, ap, ◌∙◌, Option, none, some, List, [], ◌∷◌, ◌++◌, append-nil,
  append_assoc, arith, length, length-append,
}
use ccnet.Prelude.Outcome.{value_or}
use ccnet.Condition.{
  Pthread, resume, wake_spuriously, IsCovered, notify-IsCovered, resume-IsCovered, wait-IsCovered,
  wake_spuriously-IsCovered, weaken-IsCovered,
}
use ccnet.BlockingQueue.{BlockingQueue, Pass, create, put, take, take_elim}

module _ {ℓ} {A : Type ℓ} where
  -- A pass of `take`, which no assertion ends.
  abbrev pub passed : BlockingQueue A → Pass A
  passed q = value_or (record { result = none; left = q }) (take q)

  abbrev pub resumed : BlockingQueue A → BlockingQueue A
  resumed q = record q { not_empty = resume q.not_empty }

  abbrev pub woken : BlockingQueue A → BlockingQueue A
  woken q = record q { not_empty = wake_spuriously q.not_empty }

  abbrev listed : Option A → List A
  listed none = []
  listed (some x) = x ∷ []

  IsFair : BlockingQueue A → Type 0
  IsFair q = IsCovered q.not_empty (length q.queue)

  passed-IsFair : (q : BlockingQueue A) → IsFair q → IsFair (passed q).left
  unfolding IsFair
  passed-IsFair q h =
      take_elim (λ o. IsFair (value_or (record { result = none; left = q }) o).left) q
        (λ e. simp e (wait-IsCovered q.not_empty))
        (λ x xs e.
          weaken-IsCovered q.not_empty (length xs) (length q.queue) (omega (arith, ap length e)) h)

  resumed-IsFair :
      (q : BlockingQueue A) → 0 < q.not_empty.woken → IsFair q → IsFair (passed (resumed q)).left
  unfolding IsFair
  resumed-IsFair q o h =
      take_elim (λ r. IsFair (value_or (record { result = none; left = resumed q }) r).left)
        (resumed q) (λ e. simp e (wait-IsCovered (resume q.not_empty)))
        (λ x xs e.
          weaken-IsCovered (resume q.not_empty) (length xs) (length q.queue - 1)
            (omega (arith, ap length e)) (resume-IsCovered q.not_empty (length q.queue) o h))

  passed_keeps : (q : BlockingQueue A) → listed (passed q).result ++ (passed q).left.queue ≡ q.queue
  passed_keeps q =
      take_elim
        (λ o.
          listed (value_or (record { result = none; left = q }) o).result
            ++ (value_or (record { result = none; left = q }) o).left.queue
          ≡ q.queue)
        q (λ e. refl) (λ x xs e. sym e)

module _ {ℓ} {A : Type ℓ} (p : Pthread) where
  infix 40 ◌⟶◌
  -- A step of some thread: a whole `put`, the first pass of a `take`, or a pass after a wakeup.
  pub data ◌⟶◌ : BlockingQueue A → BlockingQueue A → Type ℓ where
    puts : (q : BlockingQueue A) (x : A) → q ⟶ put p x q
    enters : (q : BlockingQueue A) → q ⟶ (passed q).left
    resumes : (q : BlockingQueue A) → 0 < q.not_empty.woken → q ⟶ (passed (resumed q)).left
    wakes : (q : BlockingQueue A) → 0 < q.not_empty.waiting → q ⟶ woken q

  unfoldable pub given : {q r : BlockingQueue A} → q ⟶ r → List A
  given (puts q x) = x ∷ []
  given (enters q) = []
  given (resumes q o) = []
  given (wakes q o) = []

  unfoldable pub got : {q r : BlockingQueue A} → q ⟶ r → List A
  got (puts q x) = []
  got (enters q) = listed (passed q).result
  got (resumes q o) = listed (passed (resumed q)).result
  got (wakes q o) = []

  step-IsFair : {q r : BlockingQueue A} → q ⟶ r → IsFair q → IsFair r
  unfolding IsFair
  step-IsFair (puts q x) h =
      unfold put in
      weaken-IsCovered _ _ _ (omega (arith, length-append q.queue (x ∷ [])))
        (notify-IsCovered p q.not_empty (length q.queue) h)
  step-IsFair (enters q) h = passed-IsFair q h
  step-IsFair (resumes q o) h = resumed-IsFair q o h
  step-IsFair (wakes q o) h = wake_spuriously-IsCovered q.not_empty (length q.queue) o h

  step_keeps : {q r : BlockingQueue A} (s : q ⟶ r) → q.queue ++ given s ≡ got s ++ r.queue
  unfolding given got
  step_keeps (puts q x) = unfold put in refl
  step_keeps (enters q) = append-nil q.queue ∙ sym (passed_keeps q)
  step_keeps (resumes q o) = append-nil q.queue ∙ sym (passed_keeps (resumed q))
  step_keeps (wakes q o) = append-nil q.queue

  -- Any steps, with what they put and what they took.
  pub data Run : BlockingQueue A → List A → List A → BlockingQueue A → Type ℓ where
    rests : (q : BlockingQueue A) → Run q [] [] q
    goes_on :
        {q r t : BlockingQueue A} {xs ys : List A} (s : q ⟶ r)
        → Run r xs ys t
        → Run q (given s ++ xs) (got s ++ ys) t

  run_from :
      {q r : BlockingQueue A} {xs ys : List A}
      → IsFair q
      → Run q xs ys r
      → (q.queue ++ xs ≡ ys ++ r.queue) × IsFair r
  run_from h (rests q) = (append-nil q.queue, h)
  run_from h (goes_on {q = q} {r = m} {xs = xs} {ys = ys} s l) =
      let (e, f) = run_from (step-IsFair s h) l in
      (
        sym (append_assoc q.queue (given s) xs)
            ∙ ap (λ z. z ++ xs) (step_keeps s)
            ∙ append_assoc (got s) m.queue xs
            ∙ ap (λ z. got s ++ z) e
            ∙ sym (append_assoc (got s) ys _),
        f,
      )

  -- After any interleaving of puts, takes and wakeups on a new queue: what was taken and what is
  -- still there are together what was put, in that order; and while a consumer waits, as many others
  -- are woken as there are items.
  pub run-IsCovered :
      {q : BlockingQueue A} {xs ys : List A}
      → Run create xs ys q
      → (xs ≡ ys ++ q.queue) × IsCovered q.not_empty (length q.queue)
  unfolding IsFair create
  run-IsCovered r = run_from (λ w. omega arith) r
