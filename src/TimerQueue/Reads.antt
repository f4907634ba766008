-- ===== src/TimerQueue/Reads.antt =====
-- net/timer_queue.cc: `handleRead`, from the timers that expired to those that are set anew.
use ccnet.Prelude.{
  ℕ, ◌<◌, ◌≡◌, refl, sym, ap, ◌∙◌, ◌≢◌, inl, inr, Bool, true, false, some, List, [], ◌∷◌, arith,
  ltb, Bool-cases,
}
use ccnet.Prelude.Outcome.{Outcome, ok}
use ccnet.Prelude.Sets.{Key, same, is_in, IsDistinct}
use ccnet.TimerQueue.{
  cancel_in_loop, Timer, TimerQueue, entry, timer_at, run_each, next_expire, reset, reset_timerfd,
  handle_read, uintptr_max,
}
use ccnet.TimerQueue.Matched.{Cancels, cancel_in_loop-Cancels, IsMatched, same_timer, same_self}
use ccnet.TimerQueue.Expired.{IsAscending, is_in_same, is_in_own, get_expired-Expires}
use ccnet.TimerQueue.Taken.{IsElsewhere, AreTaken}
use ccnet.TimerQueue.Restarted.{reset_each-Resets}

-- Each key of the list is the entry of a timer.
abbrev AreEntries : TimerQueue → List Key → Type 0
AreEntries q ks =
    (k : Key)
    → is_in k ks ≡ true
    → (t : Timer) × (q.heap k.second ≡ some t) × (t.expiration ≡ k.first)

IsElsewhere-all :
    (a : ℕ) (ks : List Key) → ((k : Key) → is_in k ks ≡ true → k.second ≢ a) → IsElsewhere a ks
unfolding is_in
IsElsewhere-all a [] h = tt
IsElsewhere-all a (k ∷ ks) h =
    (h k (ground (arith, same_self k)), IsElsewhere-all a ks (λ y i. h y (ground (arith, i))))

not_both : true ≡ false → ⊥
not_both e = cc

-- Two entries at one address are the same.
one_entry :
    (q : TimerQueue) (k y : Key) (ks : List Key)
    → AreEntries q (k ∷ ks)
    → is_in k ks ≡ false
    → is_in y ks ≡ true
    → y.second ≢ k.second
unfolding is_in
one_entry q k y ks h n i e =
    let (t, there, when) = h k (ground (arith, same_self k)) in
    let (u, there', when') = h y (ground (arith, i)) in
    let v = ap (λ (x : Timer). x.expiration) (same_timer q y.second k.second u t there' there e) in
    not_both (sym i ∙ is_in_same y k ks (ground (arith, v, when, when', e)) ∙ n)

matched-AreTaken :
    (q : TimerQueue) (ks : List Key)
    → IsMatched q
    → AreEntries q ks
    → IsDistinct ks
    → ((k : Key) → is_in k ks ≡ true → is_in k q.timers ≡ false)
    → AreTaken q ks
unfolding IsDistinct is_in
matched-AreTaken q [] m h d o = tt
matched-AreTaken q (k ∷ ks) m h (n, d) o =
    let (t, there, when) = h k (ground (arith, same_self k)) in
    (
      (t, there),
      λ x i e.
          let (u, there', seq, listed) = m.actives x i in
          let v =
            ap (λ (y : Timer). y.expiration) (same_timer q x.first k.second u t there' there e) in
          let same_key : same (entry x.first u) k ≡ true = ground (arith, v, when, e) in
          not_both (
            sym listed
            ∙ is_in_same (entry x.first u) k q.timers same_key
            ∙ o k (ground (arith, same_self k))),
      IsElsewhere-all k.second ks (λ y i. one_entry q k y ks h n i),
      matched-AreTaken q ks m (λ y i. h y (ground (arith, i))) d (λ y i. o y (ground (arith, i))),
    )

AreTaken-flag :
    (q : TimerQueue) (ks : List Key) (b : Bool)
    → AreTaken q ks
    → AreTaken (record q { calling_expired_timers = b }) ks
AreTaken-flag q [] b t = t
AreTaken-flag q (k ∷ ks) b (h, idle, e, ts) = (h, idle, e, AreTaken-flag q ks b ts)

-- A call that returns matched sets.
pub record Returns (o : Outcome TimerQueue) : Type 0 where
  pub result : TimerQueue
  pub returns : o ≡ ok result
  pub matched : IsMatched result

-- A callback that returns, and keeps the sets matched and the expired timers out of them.
abbrev pub IsKind : (ℕ → TimerQueue → Outcome TimerQueue) → Type 0
IsKind callback =
    (a : ℕ) (q : TimerQueue) (ks : List Key)
    → IsMatched q
    → AreTaken q ks
    → (r : TimerQueue) × (callback a q ≡ ok r) × IsMatched r × AreTaken r ks

-- The callbacks of `ks`, which are among the expired timers `all`.
run_each_kind :
    (callback : ℕ → TimerQueue → Outcome TimerQueue)
    → IsKind callback
    → (ks all : List Key) (q : TimerQueue) → ((k : Key) → is_in k ks ≡ true → is_in k all ≡ true)
    → IsMatched q
    → AreTaken q all
    → (r : TimerQueue) × (run_each callback ks q ≡ ok r) × IsMatched r × AreTaken r all
unfolding run_each timer_at is_in
run_each_kind callback kind [] all q sub m u = (q, refl, m, u)
run_each_kind callback kind (k ∷ ks) all q sub m u =
    let (t, there) = taken_at q all u k (sub k (ground (arith, same_self k))) in
    let (r, e, w, v) = kind k.second q all m u in
    let (s, f, x, y) =
      run_each_kind callback kind ks all r (λ y i. sub y (ground (arith, i))) w v in
    (s, simp (there, e) f, x, y)
  where
    taken_at :
        (q : TimerQueue) (all : List Key)
        → AreTaken q all
        → (k : Key) → is_in k all ≡ true
        → (t : Timer) × (q.heap k.second ≡ some t)
    taken_at q [] u k i = absurd cc
    taken_at q (y ∷ ys) ((t, h), _, _, us) k i = elim (Bool-cases (same k y)) [
      | inl e ↦ (t, ap q.heap (ground (arith, e)) ∙ h)
      | inr e ↦ taken_at q ys us k (ground (arith, i, e))
    ]

next_expire-returns : (q : TimerQueue) → IsMatched q → (when : ℕ) × (next_expire q ≡ ok when)
unfolding next_expire timer_at
next_expire-returns q m = by q.timers refl
  where
    by : (ks : List Key) → q.timers ≡ ks → (when : ℕ) × (next_expire q ≡ ok when)
    by [] e = (0, ap (λ l. next_expire (record q { timers = l })) e)
    by (k ∷ ks) e =
        let (t, there, _, _) = m.entries k (ap (is_in k) e ∙ is_in_own k ks) in
        (t.expiration, ap (λ l. next_expire (record q { timers = l })) e ∙ simp there refl)

reset-Returns :
    (now : ℕ) (q : TimerQueue) (ks : List Key)
    → IsMatched q
    → AreTaken q ks
    → Returns (reset now ks q)
unfolding reset reset_timerfd
reset-Returns now q ks m u =
    let s = reset_each-Resets now q ks m u in
    let (when, e) = next_expire-returns s.result s.matched in
    elim (Bool-cases (ltb 0 when)) [
      | inl b ↦ record {
        result = record s.result { armed = some when };
        returns = simp (s.returns, e, b) refl;
        matched = record {
          sizes = s.matched.sizes;
          distinct = s.matched.distinct;
          active_distinct = s.matched.active_distinct;
          entries = s.matched.entries;
          actives = s.matched.actives;
        };
      }
      | inr b ↦ record {
        result = s.result;
        returns = simp (s.returns, e, b) refl;
        matched = s.matched;
      }
    ]

-- On matched sets in their order, where no timer stands at the largest address, and with callbacks that
-- return and keep the sets matched and the expired timers out of them, `handleRead` fails no assertion
-- and leaves matched sets.
pub handle_read-Returns :
    (callback : ℕ → TimerQueue → Outcome TimerQueue) (now : ℕ) (q : TimerQueue)
    → IsKind callback
    → IsMatched q
    → IsAscending q.timers
    → ((k : Key) → is_in k q.timers ≡ true → k.second < uintptr_max)
    → Returns (handle_read callback now q)
unfolding handle_read
handle_read-Returns callback now q kind m a below =
    let x = get_expired-Expires now q m a below in
    let r : TimerQueue = record x.result { calling_expired_timers = true; canceling_timers = [] } in
    let w : IsMatched r = record {
      sizes = x.matched.sizes;
      distinct = x.matched.distinct;
      active_distinct = x.matched.active_distinct;
      entries = x.matched.entries;
      actives = x.matched.actives;
    } in
    let taken : AreTaken r x.expired =
      matched-AreTaken r x.expired w
        (λ k i.
          let (t, there, when, _) = m.entries k (ground (arith, sym (x.due k) ∙ i)) in
          (t, x.heap_law k.second ∙ there, when))
        x.distinct (λ k i. x.others k ∙ ground (arith, sym (x.due k) ∙ i)) in
    let (s, e, v, u) = run_each_kind callback kind x.expired x.expired r (λ k i. i) w taken in
    let y =
      reset-Returns now (record s { calling_expired_timers = false }) x.expired
        (record {
          sizes = v.sizes;
          distinct = v.distinct;
          active_distinct = v.active_distinct;
          entries = v.entries;
          actives = v.actives;
        })
        (AreTaken-flag s x.expired false u) in
    record { result = y.result; returns = simp (x.returns, e) y.returns; matched = y.matched }

AreTaken-cancelled :
    (id : Key) (q : TimerQueue) (o : Outcome TimerQueue) (c : Cancels q id o) (ks : List Key)
    → AreTaken q ks
    → AreTaken c.result ks
AreTaken-cancelled id q o c [] u = u
AreTaken-cancelled id q o c (k ∷ ks) ((t, h), idle, e, us) = (
  (t, c.heap_law k.second (λ i f. idle id i (sym f)) ∙ h),
  λ x i. idle x (ground (arith, sym (c.others x) ∙ i)),
  e,
  AreTaken-cancelled id q o c ks us,
)

-- Callbacks that cancel timers.
pub cancel-IsKind : (ids : ℕ → Key) → IsKind (λ a q. cancel_in_loop (ids a) q)
cancel-IsKind ids a q ks m u =
    let c = cancel_in_loop-Cancels q (ids a) m in
    (c.result, c.returns, c.matched, AreTaken-cancelled (ids a) q _ c ks u)
