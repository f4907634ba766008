-- ===== src/ThreadPool/Order.antt =====
-- base/thread_pool.cc: any steps of the threads of a pool, and the tasks that were taken and called.
use ccnet.Prelude.{
  ℕ, ◌≡◌, refl, sym, ap, ◌∙◌, Bool-cases, inl, inr, Bool, true, false, List, [], ◌∷◌, ◌++◌,
  append-nil, append_assoc, arith,
}
use ccnet.Prelude.Outcome.{value_or}
use ccnet.Condition.{Pthread}
use ccnet.ThreadPool.{
  ThreadPool, create, start, stop, take_task, after_take, call_task, begin_thread, test_running,
  end_task,
}
use ccnet.ThreadPool.Hands.{occurrences}
use ccnet.ThreadPool.Steps.{
  WorkerStep, begins, tests, takes, takes_again, calls, ends, ◌⟶◌, works, runs, runs_again, stops,
  worker_wakes, caller_wakes, run_pass, take_elim, run_elim, take_resumed, take_entered,
  run_resumed,
}
use ccnet.ThreadPool.Sound.{IsSound, step-IsSound}

abbrev accepted_task : Bool → ℕ → List ℕ
accepted_task true t = t ∷ []
accepted_task false t = []

-- The tasks taken in so far: those taken out, and those in the queue.
abbrev pub taken_in : ThreadPool → List ℕ
taken_in q = q.dequeued ++ q.queue

-- A pool right after its `start`, whose assertion holds on a new pool.
abbrev pub started : ℕ → ℕ → Bool → ThreadPool
started n max_size has_callback =
    value_or (create max_size has_callback) (start n (create max_size has_callback))

module _ (p : Pthread) where
  -- What a step takes in.
  unfoldable pub given : {q r : ThreadPool} → ◌⟶◌ p q r → List ℕ
  given (works s) = []
  given (runs q t) = accepted_task (run_pass p t q).accepted t
  given (runs_again q t o) = accepted_task (run_pass p t (run_resumed p q)).accepted t
  given (stops q) = []
  given (worker_wakes q o) = []
  given (caller_wakes q o) = []

  take_keeps : (q : ThreadPool) → taken_in (take_task p q) ≡ taken_in q
  unfolding take_task
  take_keeps q =
      take_elim p (λ t. taken_in (after_take t.result t.left) ≡ taken_in q) q (λ e f. refl)
        (λ e f. refl)
        (λ x xs e. append_assoc q.dequeued (x ∷ []) xs ∙ ap (λ l. q.dequeued ++ l) (sym e))

  tests_keep : (q : ThreadPool) → taken_in (test_running q) ≡ taken_in q
  unfolding test_running
  tests_keep q = elim (Bool-cases q.running) [ inl e ↦ simp e refl | inr e ↦ simp e refl ]

  worker_keeps : {q r : ThreadPool} → WorkerStep p q r → taken_in r ≡ taken_in q
  worker_keeps (begins q o) = unfold begin_thread in refl
  worker_keeps (tests q o) = tests_keep q
  worker_keeps (takes q o) = take_keeps (take_entered p q)
  worker_keeps (takes_again q o) = take_keeps (take_resumed p q)
  worker_keeps (calls q t o) = unfold call_task in refl
  worker_keeps (ends q o) = unfold end_task in refl

  run_keeps :
      (t : ℕ) (q : ThreadPool)
      → (q.threads ≡ 0 → q.queue ≡ [])
      → taken_in q ++ accepted_task (run_pass p t q).accepted t ≡ taken_in (run_pass p t q).left
  run_keeps t q z =
      run_elim p
        (λ o.
          taken_in q
            ++ accepted_task (value_or (record { accepted = false; left = q }) o).accepted t
          ≡ taken_in (value_or (record { accepted = false; left = q }) o).left)
        t q (λ e. simp (z e, append-nil q.dequeued, append-nil (q.dequeued ++ (t ∷ []))) refl)
        (λ e f. append-nil (taken_in q)) (λ e f. append_assoc q.dequeued q.queue (t ∷ []))

  step_keeps : {q r : ThreadPool} (s : ◌⟶◌ p q r) → IsSound p q → taken_in q ++ given s ≡ taken_in r
  unfolding given
  step_keeps (works {q = q} s) h = append-nil (taken_in q) ∙ sym (worker_keeps s)
  step_keeps (runs q t) h = run_keeps t q (λ e. (h.direct e).0)
  step_keeps (runs_again q t o) h = run_keeps t (run_resumed p q) (λ e. (h.direct e).0)
  step_keeps (stops q) h = unfold stop in append-nil (taken_in q)
  step_keeps (worker_wakes q o) h = append-nil (taken_in q)
  step_keeps (caller_wakes q o) h = append-nil (taken_in q)

  -- Any steps, and the tasks that they take in.
  pub data Run : ThreadPool → List ℕ → ThreadPool → Type 0 where
    rests : (q : ThreadPool) → Run q [] q
    goes_on :
        {q r t : ThreadPool} {xs : List ℕ} (s : ◌⟶◌ p q r) → Run r xs t → Run q (given s ++ xs) t

  pub run_from :
      {q r : ThreadPool} {xs : List ℕ}
      → IsSound p q
      → Run q xs r
      → IsSound p r × (taken_in q ++ xs ≡ taken_in r)
  run_from h (rests q) = (h, append-nil (taken_in q))
  run_from h (goes_on {q = q} {xs = xs} s l) =
      let (i, e) = run_from (step-IsSound p s h) l in
      (i, sym (append_assoc (taken_in q) (given s) xs) ∙ ap (λ z. z ++ xs) (step_keeps s h) ∙ e)

  started-IsSound :
      (n max_size : ℕ) (has_callback : Bool) → IsSound p (started n max_size has_callback)
  unfolding start create
  started-IsSound n m c = record {
    all_workers = omega arith;
    served = λ x. unfold occurrences in refl;
    bound = λ h. omega arith;
    consumers = λ w. absurd (omega arith);
    producers = λ w. absurd (omega arith);
    stopped = λ e. refl;
    direct = λ e. (refl, refl);
  }

  -- After any steps of the workers and of the other threads on a pool that was started: the tasks
  -- that were taken out of the queue and those in it are together those that `run` took in, in that
  -- order; each task was called or is in the hands of a worker that took it, as often as it was taken;
  -- every worker is accounted for; a bounded queue keeps its bound; and while a worker sleeps as many
  -- are woken as there are tasks, and while a caller of `run` sleeps as many as there is room.
  pub run-IsSound :
      (n max_size : ℕ) (has_callback : Bool) {q : ThreadPool} {xs : List ℕ}
      → Run (started n max_size has_callback) xs q
      → (xs ≡ q.dequeued ++ q.queue) × IsSound p q
  unfolding start create
  run-IsSound n m c l = let (h, e) = run_from (started-IsSound n m c) l in (e, h)
