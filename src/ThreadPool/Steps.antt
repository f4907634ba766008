-- ===== src/ThreadPool/Steps.antt =====
-- base/thread_pool.cc: a step of a thread of a pool, and the cases of `take` and `run`.
use ccnet.Prelude.{
  ℕ, ◌+◌, ◌-◌, ◌≤◌, ◌<◌, ◌≡◌, refl, inl, inr, Bool, true, false, List, [], ◌∷◌, ◌++◌, arith, ltb,
  ◌==◌, if◌then◌else◌, ==_iff, Bool-cases, length,
}
use ccnet.Prelude.Outcome.{Outcome, ok, value_or}
use ccnet.Condition.{Pthread, wait, notify, resume, wake_spuriously}
use ccnet.ThreadPool.{
  ThreadPool, stop, run, RunPass, TakePass, is_full, take, take_from, waits, nothing, task,
  take_task, call_task, begin_thread, test_running, end_task,
}
use ccnet.ThreadPool.Hands.{occurrences}

module _ (p : Pthread) where
  abbrev pub take_resumed : ThreadPool → ThreadPool
  take_resumed q = record q { not_empty = resume q.not_empty }

  abbrev pub take_entered : ThreadPool → ThreadPool
  take_entered q = record q { taking = q.taking - 1 }

  -- A step of a worker.
  pub data WorkerStep : ThreadPool → ThreadPool → Type 0 where
    begins : (q : ThreadPool) → 0 < q.fresh → WorkerStep q (begin_thread q)
    tests : (q : ThreadPool) → 0 < q.idle → WorkerStep q (test_running q)
    takes : (q : ThreadPool) → 0 < q.taking → WorkerStep q (take_task p (take_entered q))
    takes_again :
        (q : ThreadPool) → 0 < q.not_empty.woken → WorkerStep q (take_task p (take_resumed q))
    calls : (q : ThreadPool) (t : ℕ) → 0 < occurrences t q.held → WorkerStep q (call_task t q)
    ends : (q : ThreadPool) → 0 < q.busy → WorkerStep q (end_task q)

  -- A pass of `run`, which no assertion ends.
  abbrev pub run_pass : ℕ → ThreadPool → RunPass
  run_pass t q = value_or (record { accepted = false; left = q }) (run p t q)

  abbrev pub run_resumed : ThreadPool → ThreadPool
  run_resumed q = record q { not_full = resume q.not_full }

  infix 40 ◌⟶◌
  -- A step of a worker or of another thread, or a wakeup without a notification.
  pub data ◌⟶◌ : ThreadPool → ThreadPool → Type 0 where
    works : {q r : ThreadPool} → WorkerStep q r → q ⟶ r
    runs : (q : ThreadPool) (t : ℕ) → q ⟶ (run_pass t q).left
    runs_again :
        (q : ThreadPool) (t : ℕ) → 0 < q.not_full.woken → q ⟶ (run_pass t (run_resumed q)).left
    stops : (q : ThreadPool) → q ⟶ stop p q
    worker_wakes :
        (q : ThreadPool)
        → 0 < q.not_empty.waiting
        → q ⟶ record q { not_empty = wake_spuriously q.not_empty }
    caller_wakes :
        (q : ThreadPool)
        → 0 < q.not_full.waiting
        → q ⟶ record q { not_full = wake_spuriously q.not_full }

  -- The workers by what they do.
  abbrev pub workers : ThreadPool → ℕ
  workers q =
      q.fresh
      + q.idle
      + q.taking
      + length q.held
      + q.busy
      + q.finished
      + (q.not_empty.waiting + q.not_empty.woken)

  pub take_elim {κ} :
      (P : TakePass → Type κ) (q : ThreadPool)
      → (q.queue ≡ []
          → q.running ≡ true
          → P (record { result = waits; left = record q { not_empty = wait q.not_empty } }))
      → (q.queue ≡ [] → q.running ≡ false → P (record { result = nothing; left = q }))
      → ((x : ℕ) (xs : List ℕ)
          → q.queue ≡ x ∷ xs
          → P (record {
            result = task x;
            left = record q {
              queue = xs;
              dequeued = q.dequeued ++ (x ∷ []);
              not_full = if ltb 0 q.max_queue_size then notify p q.not_full else q.not_full;
            };
          }))
      → P (take p q)
  unfolding take
  take_elim P q a b c = cases q.queue q.running refl refl
    where
      cases : (l : List ℕ) (r : Bool) → q.queue ≡ l → q.running ≡ r → P (take_from p l r q)
      cases [] true e f = a e f
      cases [] false e f = b e f
      cases (x ∷ xs) r e f = c x xs e

  pub run_elim {κ} :
      (P : Outcome RunPass → Type κ) (t : ℕ) (q : ThreadPool)
      → (q.threads ≡ 0
          → P (
              ok (record {
                accepted = true;
                left = record q {
                  dequeued = q.dequeued ++ (t ∷ []);
                  called = q.called ++ (t ∷ []);
                };
              })))
      → (0 < q.threads
          → q.max_queue_size ≤ length q.queue
          → P (ok (record { accepted = false; left = record q { not_full = wait q.not_full } })))
      → (0 < q.threads
          → (0 < q.max_queue_size → length q.queue < q.max_queue_size)
          → P (
              ok (record {
                accepted = true;
                left = record q { queue = q.queue ++ (t ∷ []); not_empty = notify p q.not_empty };
              })))
      → P (run p t q)
  unfolding run is_full
  run_elim P t q a b c = elim (Bool-cases (q.threads == 0)) [
    | inl e ↦ simp (e, run) (a ((==_iff q.threads 0).0 e))
    | inr e ↦ elim (Bool-cases (is_full q)) [
      | inl f ↦ simp (e, f, run) (b (ground (arith, e)) (ground (arith, f)))
      | inr f ↦ simp (e, f, run) (c (ground (arith, e)) (λ h. ground (arith, f)))
    ]
  ]
