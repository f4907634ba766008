-- ===== src/ThreadPool/Sound.antt =====
-- base/thread_pool.cc: what holds of a pool after any step.
use ccnet.Prelude.{
  ℕ, suc, ◌+◌, ◌-◌, ◌≤◌, ◌<◌, ◌≡◌, refl, ap, inl, inr, Bool, true, false, List, [], ◌∷◌, arith, ltb,
  if◌then◌else◌, Bool-cases, length, length-append,
}
use ccnet.Prelude.Outcome.{value_or}
use ccnet.Condition.{
  Condition, Pthread, wait, notify, resume, wake_spuriously, IsCovered, notify-IsCovered,
  notify_all-IsCovered, resume-IsCovered, wait-IsCovered, wake_spuriously-IsCovered,
  weaken-IsCovered, notify_keeps, notify_all_keeps,
}
use ccnet.ThreadPool.{
  ThreadPool, stop, take_task, after_take, call_task, begin_thread, test_running, end_task,
}
use ccnet.ThreadPool.Hands.{
  occurrences, occurrences-append, occurrences-remove_first, length-remove_first,
}
use ccnet.ThreadPool.Steps.{
  WorkerStep, begins, tests, takes, takes_again, calls, ends, ◌⟶◌, works, runs, runs_again, stops,
  worker_wakes, caller_wakes, run_pass, take_elim, run_elim, take_resumed, take_entered,
  run_resumed, workers,
}

module _ (p : Pthread) where
  -- Each task that was taken was called, or a worker has it, as often as it was taken.
  abbrev pub AreServed : ThreadPool → Type 0
  AreServed q = (x : ℕ) → occurrences x q.called + occurrences x q.held ≡ occurrences x q.dequeued

  pub record IsSound (q : ThreadPool) : Type 0 where
    pub all_workers : workers p q ≡ q.threads
    pub served : AreServed q
    pub bound : 0 < q.max_queue_size → length q.queue ≤ q.max_queue_size
    pub consumers : IsCovered q.not_empty (length q.queue)
    pub producers : IsCovered q.not_full (q.max_queue_size - length q.queue)
    pub stopped : q.running ≡ false → q.not_empty.waiting ≡ 0
    pub direct : q.threads ≡ 0 → (q.queue ≡ []) × (q.not_full.waiting + q.not_full.woken ≡ 0)

  notified-IsCovered :
      (b : Bool) (c : Condition) (m n : ℕ)
      → IsCovered c n
      → m ≤ suc n
      → (b ≡ false → m ≡ 0)
      → IsCovered (if b then notify p c else c) m
  notified-IsCovered true c m n h l k = weaken-IsCovered _ m (suc n) l (notify-IsCovered p c n h)
  notified-IsCovered false c m n h l k = λ w. omega (arith, k refl)

  one_more :
      (x t : ℕ) (ys : List ℕ) → occurrences x (t ∷ ys) ≡ occurrences x (t ∷ []) + occurrences x ys
  unfolding occurrences
  one_more x t ys = ground arith

  -- A pass of `take` by a worker that is counted nowhere else.
  take-IsSound :
      (q : ThreadPool)
      → suc (workers p q) ≡ q.threads
      → AreServed q
      → (0 < q.max_queue_size → length q.queue ≤ q.max_queue_size)
      → IsCovered q.not_empty (length q.queue - 1)
      → IsCovered q.not_full (q.max_queue_size - length q.queue)
      → (q.running ≡ false → q.not_empty.waiting ≡ 0)
      → IsSound (take_task p q)
  unfolding take_task
  take-IsSound q w v b c d s =
      take_elim p (λ t. IsSound (after_take t.result t.left)) q
        (λ e f.
          unfold wait in
          record {
            all_workers = omega arith;
            served = v;
            bound = b;
            consumers = λ _. omega (arith, ap length e);
            producers = d;
            stopped = λ g. absurd (ground (arith, f, g));
            direct = λ g. absurd (omega arith);
          })
        (λ e f. record {
          all_workers = omega arith;
          served = v;
          bound = b;
          consumers = weaken-IsCovered _ _ _ (omega (arith, ap length e)) c;
          producers = d;
          stopped = s;
          direct = λ g. absurd (omega arith);
        })
        (λ x xs e. record {
          all_workers = omega arith;
          served = λ y.
              ground (arith, v y, occurrences-append y q.dequeued (x ∷ []), one_more y x q.held);
          bound = λ g. omega (arith, b g, ap length e);
          consumers = weaken-IsCovered _ _ _ (omega (arith, ap length e)) c;
          producers =
              notified-IsCovered (ltb 0 q.max_queue_size) q.not_full _
                (q.max_queue_size - length q.queue) d (omega (arith, ap length e))
                (λ g. ground (arith, g));
          stopped = s;
          direct = λ g. absurd (omega arith);
        })

  pass-IsSound :
      (t : ℕ) (q : ThreadPool)
      → workers p q ≡ q.threads
      → AreServed q
      → (0 < q.max_queue_size → length q.queue ≤ q.max_queue_size)
      → IsCovered q.not_empty (length q.queue)
      → IsCovered q.not_full (q.max_queue_size - length q.queue - 1)
      → (q.running ≡ false → q.not_empty.waiting ≡ 0)
      → (q.threads ≡ 0 → (q.queue ≡ []) × (q.not_full.waiting + q.not_full.woken ≡ 0))
      → (q.threads ≡ 0 → IsCovered q.not_full (q.max_queue_size - length q.queue))
      → IsSound (run_pass p t q).left
  pass-IsSound t q w v b c d s z y =
      run_elim p (λ o. IsSound (value_or (record { accepted = false; left = q }) o).left) t q
        (λ e. record {
          all_workers = w;
          served = λ x. omega (
            arith,
            v x,
            occurrences-append x q.dequeued (t ∷ []),
            occurrences-append x q.called (t ∷ []),
          );
          bound = b;
          consumers = c;
          producers = y e;
          stopped = s;
          direct = z;
        })
        (λ e f. record {
          all_workers = w;
          served = v;
          bound = b;
          consumers = c;
          producers = weaken-IsCovered _ _ 0 (omega arith) (wait-IsCovered q.not_full);
          stopped = s;
          direct = λ g. absurd (omega arith);
        })
        (λ e f. record {
          all_workers = omega (arith, (notify_keeps p q.not_empty).0);
          served = v;
          bound = λ g. omega (arith, f g, length-append q.queue (t ∷ []));
          consumers =
              weaken-IsCovered _ _ _ (omega (arith, length-append q.queue (t ∷ [])))
                (notify-IsCovered p q.not_empty _ c);
          producers = weaken-IsCovered _ _ _ (omega (arith, length-append q.queue (t ∷ []))) d;
          stopped = λ g. omega (arith, s g, (notify_keeps p q.not_empty).1);
          direct = λ g. absurd (omega arith);
        })

  tests-IsSound : (q : ThreadPool) → 0 < q.idle → IsSound q → IsSound (test_running q)
  unfolding test_running
  tests-IsSound q o h = elim (Bool-cases q.running) [
    | inl e ↦ simp e (record {
      all_workers = omega (arith, h.all_workers);
      served = h.served;
      bound = h.bound;
      consumers = h.consumers;
      producers = h.producers;
      stopped = λ g. absurd (ground (arith, e, g));
      direct = h.direct;
    })
    | inr e ↦ simp e (record {
      all_workers = omega (arith, h.all_workers);
      served = h.served;
      bound = h.bound;
      consumers = h.consumers;
      producers = h.producers;
      stopped = λ g. h.stopped e;
      direct = h.direct;
    })
  ]

  worker-IsSound : {q r : ThreadPool} → WorkerStep p q r → IsSound q → IsSound r
  worker-IsSound (begins q o) h =
      unfold begin_thread in
      record {
        all_workers = omega (arith, h.all_workers);
        served = h.served;
        bound = h.bound;
        consumers = h.consumers;
        producers = h.producers;
        stopped = h.stopped;
        direct = h.direct;
      }
  worker-IsSound (tests q o) h = tests-IsSound q o h
  worker-IsSound (takes q o) h =
      take-IsSound (take_entered p q) (omega (arith, h.all_workers)) h.served h.bound
        (weaken-IsCovered _ _ _ (omega arith) h.consumers) h.producers h.stopped
  worker-IsSound (takes_again q o) h =
      unfold resume in
      take-IsSound (take_resumed p q) (omega (arith, h.all_workers)) h.served h.bound
        (resume-IsCovered q.not_empty _ o h.consumers) h.producers h.stopped
  worker-IsSound (calls q t o) h =
      unfold call_task in
      record {
        all_workers = omega (arith, h.all_workers, length-remove_first t q.held o);
        served = λ x. omega (
          arith,
          h.served x,
          occurrences-append x q.called (t ∷ []),
          occurrences-remove_first x t q.held o,
        );
        bound = h.bound;
        consumers = h.consumers;
        producers = h.producers;
        stopped = h.stopped;
        direct = h.direct;
      }
  worker-IsSound (ends q o) h =
      unfold end_task in
      record {
        all_workers = omega (arith, h.all_workers);
        served = h.served;
        bound = h.bound;
        consumers = h.consumers;
        producers = h.producers;
        stopped = h.stopped;
        direct = h.direct;
      }

  pub step-IsSound : {q r : ThreadPool} → ◌⟶◌ p q r → IsSound q → IsSound r
  step-IsSound (works s) h = worker-IsSound s h
  step-IsSound (runs q t) h =
      pass-IsSound t q h.all_workers h.served h.bound h.consumers
        (weaken-IsCovered _ _ _ (omega arith) h.producers) h.stopped h.direct (λ e. h.producers)
  step-IsSound (runs_again q t o) h =
      pass-IsSound t (run_resumed p q) h.all_workers h.served h.bound h.consumers
        (resume-IsCovered q.not_full _ o h.producers) h.stopped
        (λ e. absurd (omega (arith, (h.direct e).1))) (λ e. absurd (omega (arith, (h.direct e).1)))
  step-IsSound (stops q) h =
      unfold stop in
      record {
        all_workers = omega (arith, h.all_workers, notify_all_keeps p q.not_empty);
        served = h.served;
        bound = h.bound;
        consumers = notify_all-IsCovered p q.not_empty _;
        producers = h.producers;
        stopped = λ g. (notify_all_keeps p q.not_empty).0;
        direct = h.direct;
      }
  step-IsSound (worker_wakes q o) h = record {
    all_workers = unfold wake_spuriously in omega (arith, h.all_workers);
    served = h.served;
    bound = h.bound;
    consumers = wake_spuriously-IsCovered q.not_empty _ o h.consumers;
    producers = h.producers;
    stopped = λ g. absurd (omega (arith, h.stopped g));
    direct = h.direct;
  }
  step-IsSound (caller_wakes q o) h = record {
    all_workers = h.all_workers;
    served = h.served;
    bound = h.bound;
    consumers = h.consumers;
    producers = wake_spuriously-IsCovered q.not_full _ o h.producers;
    stopped = h.stopped;
    direct = λ e. absurd (omega (arith, (h.direct e).1));
  }
