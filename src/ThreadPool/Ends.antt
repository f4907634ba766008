-- ===== src/ThreadPool/Ends.antt =====
-- base/thread_pool.cc: what `stop` and the joins wait for.
use ccnet.Prelude.{
  ℕ, ◌+◌, ◌*◌, ◌<◌, ◌≤◌, ◌≡◌, ◌⊎◌, refl, inl, inr, Bool, false, List, [], ◌∷◌, arith, suc, length,
  ap, ==_refl,
}
use ccnet.Prelude.Outcome.{value_or}
use ccnet.Condition.{Pthread, resume, notify_keeps, notify_all_keeps}
use ccnet.ThreadPool.{
  ThreadPool, stop, take_task, after_take, call_task, begin_thread, test_running, end_task,
}
use ccnet.ThreadPool.Hands.{occurrences, length-remove_first}
use ccnet.ThreadPool.Steps.{
  WorkerStep, begins, tests, takes, takes_again, calls, ends, works, runs, runs_again, stops,
  worker_wakes, caller_wakes, run_pass, take_elim, run_elim, take_resumed, take_entered,
  run_resumed,
}
use ccnet.ThreadPool.Sound.{IsSound, step-IsSound}
use ccnet.ThreadPool.Order.{Run, started, run-IsSound, run_from, rests, goes_on}

positive : (n : ℕ) → (0 < n) ⊎ (n ≡ 0)
positive n = ground arith

-- How many steps the workers of a stopped pool may take at most.
abbrev pub rank : ThreadPool → ℕ
rank q =
    2 * q.fresh + q.idle + 2 * q.busy + 3 * length q.held + 4 * q.taking + 4 * q.not_empty.woken

module _ (p : Pthread) where
  -- A stopped pool stays stopped, and a worker's step takes a part of its rank.
  Shrinks : ThreadPool → ℕ → Type 0
  Shrinks r k = (r.running ≡ false) × (rank r < k)

  take-Shrinks :
      (q : ThreadPool) (k : ℕ) → q.running ≡ false → rank q + 4 ≡ k → Shrinks (take_task p q) k
  unfolding take_task Shrinks
  take-Shrinks q k s h =
      take_elim p (λ t. Shrinks (after_take t.result t.left) k) q
        (λ e f. absurd (ground (arith, f, s))) (λ e f. (s, omega arith))
        (λ x xs e. (s, omega arith))

  tests-Shrinks :
      (q : ThreadPool) → q.running ≡ false → 0 < q.idle → Shrinks (test_running q) (rank q)
  unfolding test_running Shrinks
  tests-Shrinks q s o = simp s (refl, omega arith)

  worker-Shrinks : {q r : ThreadPool} → WorkerStep p q r → q.running ≡ false → Shrinks r (rank q)
  unfolding Shrinks
  worker-Shrinks (begins q o) s = unfold begin_thread in (s, omega arith)
  worker-Shrinks (tests q o) s = tests-Shrinks q s o
  worker-Shrinks (takes q o) s = take-Shrinks (take_entered p q) (rank q) s (omega arith)
  worker-Shrinks (takes_again q o) s =
      unfold resume in take-Shrinks (take_resumed p q) (rank q) s (omega arith)
  worker-Shrinks (calls q t o) s =
      unfold call_task in (s, omega (arith, length-remove_first t q.held o))
  worker-Shrinks (ends q o) s = unfold end_task in (s, omega arith)

  some_held : (xs : List ℕ) → ((t : ℕ) × (0 < occurrences t xs)) ⊎ (xs ≡ [])
  unfolding occurrences
  some_held [] = inr refl
  some_held (t ∷ xs) = inl (t, ground (arith, ==_refl t))

  -- A worker that has not returned can go on.
  all_ended_or_step :
      (q : ThreadPool)
      → IsSound p q
      → q.running ≡ false
      → (q.finished ≡ q.threads) ⊎ ((r : ThreadPool) × WorkerStep p q r)
  all_ended_or_step q h s = elim (positive q.fresh) [
    | inl a ↦ inr (_, begins q a)
    | inr a ↦ elim (positive q.idle) [
      | inl b ↦ inr (_, tests q b)
      | inr b ↦ elim (positive q.taking) [
        | inl c ↦ inr (_, takes q c)
        | inr c ↦ elim (positive q.busy) [
          | inl d ↦ inr (_, ends q d)
          | inr d ↦ elim (positive q.not_empty.woken) [
            | inl e ↦ inr (_, takes_again q e)
            | inr e ↦ elim (some_held q.held) [
              | inl (t, o) ↦ inr (_, calls q t o)
              | inr f ↦ inl (omega (arith, h.all_workers, h.stopped s, ap length f))
            ]
          ]
        ]
      ]
    ]
  ]

  -- What other threads do gives the workers of a stopped pool nothing more to do.
  Keeps : ThreadPool → ThreadPool → Type 0
  Keeps q r = (r.running ≡ false) × (rank r ≤ rank q)

  run-Keeps :
      (t : ℕ) (q : ThreadPool)
      → q.running ≡ false
      → q.not_empty.waiting ≡ 0
      → Keeps q (run_pass p t q).left
  unfolding Keeps
  run-Keeps t q s w =
      run_elim p (λ o. Keeps q (value_or (record { accepted = false; left = q }) o).left) t q
        (λ e. (s, omega arith)) (λ e f. (s, omega arith))
        (λ e f. (s, omega (arith, notify_keeps p q.not_empty)))

  -- How many of the steps are the workers'.
  unfoldable pub worker_steps : {q r : ThreadPool} {xs : List ℕ} → Run p q xs r → ℕ
  worker_steps (rests q) = 0
  worker_steps (goes_on (works s) l) = suc (worker_steps l)
  worker_steps (goes_on (runs q t) l) = worker_steps l
  worker_steps (goes_on (runs_again q t o) l) = worker_steps l
  worker_steps (goes_on (stops q) l) = worker_steps l
  worker_steps (goes_on (worker_wakes q o) l) = worker_steps l
  worker_steps (goes_on (caller_wakes q o) l) = worker_steps l

  ranked :
      {q r : ThreadPool} {xs : List ℕ} (l : Run p q xs r)
      → IsSound p q
      → q.running ≡ false
      → (r.running ≡ false) × (worker_steps l + rank r ≤ rank q)
  unfolding worker_steps Shrinks Keeps
  ranked (rests q) h s = (s, omega arith)
  ranked (goes_on (works w) l) h s =
      let (t, d) = worker-Shrinks w s in
      let (u, e) = ranked l (step-IsSound p (works w) h) t in (u, omega arith)
  ranked (goes_on (runs q t) l) h s =
      let (v, d) = run-Keeps t q s (h.stopped s) in
      let (u, e) = ranked l (step-IsSound p (runs q t) h) v in (u, omega arith)
  ranked (goes_on (runs_again q t o) l) h s =
      let (v, d) = run-Keeps t (run_resumed p q) s (h.stopped s) in
      let (u, e) = ranked l (step-IsSound p (runs_again q t o) h) v in (u, omega arith)
  ranked (goes_on (stops q) l) h s =
      let (u, e) = ranked l (step-IsSound p (stops q) h) (unfold stop in refl) in
      (u, omega (arith, e, again q (h.stopped s)))
    where
      again : (q : ThreadPool) → q.not_empty.waiting ≡ 0 → rank (stop p q) ≤ rank q
      again q w = unfold stop in omega (arith, notify_all_keeps p q.not_empty)
  ranked (goes_on (worker_wakes q o) l) h s = absurd (omega (arith, h.stopped s))
  ranked (goes_on (caller_wakes q o) l) h s = ranked l (step-IsSound p (caller_wakes q o) h) s

  -- Once a started pool is stopped, and whatever other threads do then: the workers together take at
  -- most four times as many steps as there are workers, and until all have returned one of them can
  -- take a step.
  pub stop-Ends :
      (n max_size : ℕ) (has_callback : Bool) {q r : ThreadPool} {xs ys : List ℕ}
      → Run p (started n max_size has_callback) xs q
      → q.running ≡ false
      → (l : Run p q ys r)
      → (worker_steps l ≤ 4 * q.threads)
        × ((r.finished ≡ r.threads) ⊎ ((t : ThreadPool) × WorkerStep p r t))
  stop-Ends n m c {q = q} {r = r} k s l =
      let (e, h) = run-IsSound p n m c k in
      let (t, d) = ranked l h s in
      (omega (arith, d, h.all_workers), all_ended_or_step r (run_from p h l).0 t)
