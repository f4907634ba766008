-- ===== src/TimerQueue/Matched.antt =====
-- net/timer_queue.cc: the two sets and the timers that they hold.
use ccnet.Prelude.{
  ℕ, ◌≡◌, refl, sym, ap, ◌∙◌, ◌≢◌, inl, inr, true, false, not, ◌&&◌, none, some, List, [], ◌∷◌,
  arith, Bool-cases, length,
}
use ccnet.Prelude.Outcome.{Outcome, ok}
use ccnet.Prelude.Maps.{put, put_other}
use ccnet.Prelude.Sets.{
  Key, same, is_in, insert_in, erase_from, is_in-insert_in, length-erase_from, IsDistinct,
  is_in-erase_from, erase_from-IsDistinct,
}
use ccnet.TimerQueue.{
  Timer, TimerQueue, entry, active, sizes_agree, timer_at, cancel_timer, cancel_in_loop,
}

pub record IsMatched (q : TimerQueue) : Type 0 where
  pub sizes : length q.timers ≡ length q.active_timers
  pub distinct : IsDistinct q.timers
  pub active_distinct : IsDistinct q.active_timers
  pub entries :
      (k : Key)
      → is_in k q.timers ≡ true
      → (t : Timer) × (q.heap k.second ≡ some t)
        × (t.expiration ≡ k.first)
        × (is_in (active k.second t) q.active_timers ≡ true)
  pub actives :
      (k : Key)
      → is_in k q.active_timers ≡ true
      → (t : Timer) × (q.heap k.first ≡ some t)
        × (t.sequence ≡ k.second)
        × (is_in (entry k.first t) q.timers ≡ true)

pub same_timer :
    (q : TimerQueue) (a b : ℕ) (t u : Timer) → q.heap a ≡ some t → q.heap b ≡ some u → a ≡ b → t ≡ u
same_timer q a b t u h k e = let l = ap q.heap e in cc

module _ (q : TimerQueue) (m : IsMatched q) (id : Key) (t : Timer)
    (there : q.heap id.first ≡ some t) (seq : t.sequence ≡ id.second)
    (listed : is_in (entry id.first t) q.timers ≡ true)
    (act : is_in id q.active_timers ≡ true) where
  abbrev cancelled : TimerQueue
  cancelled = record q {
    heap = put q.heap id.first none;
    timers = erase_from (entry id.first t) q.timers;
    active_timers = erase_from id q.active_timers;
  }

  -- A timer that stays has another address.
  other_entry :
      (k : Key) (u : Timer)
      → q.heap k.second ≡ some u
      → u.expiration ≡ k.first
      → same k (entry id.first t) ≡ false
      → k.second ≢ id.first
  other_entry k u h e ne eq =
      let w = ap (λ (x : Timer). x.expiration) (same_timer q k.second id.first u t h there eq) in
      ground arith

  other_active :
      (k : Key) (u : Timer)
      → q.heap k.first ≡ some u
      → u.sequence ≡ k.second
      → same k id ≡ false
      → k.first ≢ id.first
  other_active k u h e ne eq =
      let w = ap (λ (x : Timer). x.sequence) (same_timer q k.first id.first u t h there eq) in
      ground arith

  cancelled-IsMatched : IsMatched cancelled
  cancelled-IsMatched = record {
    sizes = omega (
      arith,
      m.sizes,
      length-erase_from (entry id.first t) q.timers listed,
      length-erase_from id q.active_timers act,
    );
    distinct = erase_from-IsDistinct (entry id.first t) q.timers m.distinct;
    active_distinct = erase_from-IsDistinct id q.active_timers m.active_distinct;
    entries = λ k e.
        let f = sym (is_in-erase_from k (entry id.first t) q.timers m.distinct) ∙ e in
        let (u, h, x, i) = m.entries k (ground arith) in
        let ne = other_entry k u h x (ground arith) in
        (
          u,
          put_other q.heap id.first none k.second ne ∙ h,
          x,
          is_in-erase_from (active k.second u) id q.active_timers m.active_distinct ∙ ground arith,
        );
    actives = λ k e.
        let f = sym (is_in-erase_from k id q.active_timers m.active_distinct) ∙ e in
        let (u, h, x, i) = m.actives k (ground arith) in
        let ne = other_active k u h x (ground arith) in
        (
          u,
          put_other q.heap id.first none k.first ne ∙ h,
          x,
          is_in-erase_from (entry k.first u) (entry id.first t) q.timers m.distinct ∙ ground arith,
        );
  }

-- The call returns, keeps the sets matched, and takes out the one timer and no other; while expired
-- timers are called, a timer that is in no set any more is noted as cancelled. The other timers stay
-- as they are.
pub record Cancels (q : TimerQueue) (id : Key) (r : Outcome TimerQueue) : Type 0 where
  pub result : TimerQueue
  pub returns : r ≡ ok result
  pub matched : IsMatched result
  pub others :
      (k : Key) → is_in k result.active_timers ≡ (is_in k q.active_timers && not (same k id))
  pub noted :
      q.calling_expired_timers ≡ true
      → is_in id q.active_timers ≡ false
      → is_in id result.canceling_timers ≡ true
  pub heap_law :
      (a : ℕ) → (is_in id q.active_timers ≡ true → a ≢ id.first) → result.heap a ≡ q.heap a

pub sizes_agree_lem : (q : TimerQueue) → IsMatched q → sizes_agree q ≡ true
sizes_agree_lem q m = ground (arith, m.sizes)

pub same_self : (k : Key) → same k k ≡ true
same_self k = ground arith

absent_other :
    (id k : Key) (ks : List Key)
    → is_in id ks ≡ false
    → is_in k ks ≡ (is_in k ks && not (same k id))
unfolding is_in
absent_other id k [] h = refl
absent_other id k (x ∷ ks) h = ground (arith, absent_other id k ks)

-- On matched sets `cancelInLoop` fails no assertion, keeps the sets matched, removes exactly the timer
-- named, and notes one that is being called.
pub cancel_in_loop-Cancels :
    (q : TimerQueue) (id : Key) → IsMatched q → Cancels q id (cancel_in_loop id q)
unfolding cancel_in_loop cancel_timer timer_at
cancel_in_loop-Cancels q id m = elim (Bool-cases (is_in id q.active_timers)) [
  | inl act ↦
      let (t, there, seq, listed) = m.actives id act in
      let w = cancelled-IsMatched q m id t there seq listed act in
      record {
        result = cancelled q m id t there seq listed act;
        returns = simp (
          sizes_agree_lem q m,
          act,
          there,
          listed,
          sizes_agree_lem (cancelled q m id t there seq listed act) w,
        );
        matched = w;
        others = λ k. is_in-erase_from k id q.active_timers m.active_distinct;
        noted = λ c h. absurd cc;
        heap_law = λ a n. put_other q.heap id.first none a (n act);
      }
  | inr idle ↦ elim (Bool-cases q.calling_expired_timers) [
    | inl c ↦ record {
      result = record q { canceling_timers = insert_in id q.canceling_timers };
      returns = simp (sizes_agree_lem q m, idle, c);
      matched = record {
        sizes = m.sizes;
        distinct = m.distinct;
        active_distinct = m.active_distinct;
        entries = m.entries;
        actives = m.actives;
      };
      others = λ k. absent_other id k q.active_timers idle;
      noted = λ _ _. is_in-insert_in id id q.canceling_timers ∙ rw (same_self id) refl;
      heap_law = λ a n. refl;
    }
    | inr c ↦ record {
      result = q;
      returns = simp (sizes_agree_lem q m, idle, c);
      matched = m;
      others = λ k. absent_other id k q.active_timers idle;
      noted = λ d _. absurd cc;
      heap_law = λ a n. refl;
    }
  ]
]
