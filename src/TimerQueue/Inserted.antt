-- ===== src/TimerQueue/Inserted.antt =====
-- net/timer_queue.cc: a timer that goes into the two sets, at an address that none of theirs has.
use ccnet.Prelude.{
  ℕ, ◌≡◌, refl, sym, ap, ◌∙◌, ◌≢◌, ◌⊎◌, inl, inr, true, false, ◌||◌, none, some, arith, Bool-cases,
}
use ccnet.Prelude.Maps.{put, put_at, put_other}
use ccnet.Prelude.Sets.{
  Key, same, is_in, insert_in, is_in-insert_in, length-insert_in, insert_in-IsDistinct,
}
use ccnet.TimerQueue.{Timer, TimerQueue, entry, active}
use ccnet.TimerQueue.Matched.{IsMatched}

module _ (q : TimerQueue) (m : IsMatched q) (a : ℕ) (timer : Timer) (free : q.heap a ≡ none)
    (count : ℕ) where
  abbrev pub allocated : TimerQueue
  allocated = record q { heap = put q.heap a (some timer); created = count }

  abbrev pub added : TimerQueue
  added = record allocated {
    timers = insert_in (entry a timer) q.timers;
    active_timers = insert_in (active a timer) q.active_timers;
  }

  not_used : (b : ℕ) (t : Timer) → q.heap b ≡ some t → b ≢ a
  not_used b t h e = let l = ap q.heap e in absurd cc

  pub new_entry : is_in (entry a timer) q.timers ≡ false
  new_entry = elim (Bool-cases (is_in (entry a timer) q.timers)) [
    | inl e ↦ let (t, h, _, _) = m.entries (entry a timer) e in absurd (not_used a t h refl)
    | inr e ↦ e
  ]

  pub new_active : is_in (active a timer) q.active_timers ≡ false
  new_active = elim (Bool-cases (is_in (active a timer) q.active_timers)) [
    | inl e ↦ let (t, h, _, _) = m.actives (active a timer) e in absurd (not_used a t h refl)
    | inr e ↦ e
  ]

  kept_timer : (b : ℕ) (t : Timer) → q.heap b ≡ some t → added.heap b ≡ some t
  kept_timer b t h = put_other q.heap a (some timer) b (not_used b t h) ∙ h

  pub added-IsMatched : IsMatched added
  added-IsMatched = record {
    sizes = omega (
      arith,
      m.sizes,
      length-insert_in (entry a timer) q.timers new_entry,
      length-insert_in (active a timer) q.active_timers new_active,
    );
    distinct = insert_in-IsDistinct (entry a timer) q.timers m.distinct new_entry;
    active_distinct =
        insert_in-IsDistinct (active a timer) q.active_timers m.active_distinct new_active;
    entries = λ k e.
        entry_of k (Bool-cases (same k (entry a timer)))
          (sym (is_in-insert_in k (entry a timer) q.timers) ∙ e);
    actives = λ k e.
        active_of k (Bool-cases (same k (active a timer)))
          (sym (is_in-insert_in k (active a timer) q.active_timers) ∙ e);
  }
    where
      entry_of :
          (k : Key)
          → (same k (entry a timer) ≡ true) ⊎ (same k (entry a timer) ≡ false)
          → (same k (entry a timer) || is_in k q.timers) ≡ true
          → (t : Timer) × (added.heap k.second ≡ some t)
            × (t.expiration ≡ k.first)
            × (is_in (active k.second t) added.active_timers ≡ true)
      entry_of k (inl s) e =
          let x : k.second ≡ a = ground arith in
          (
            timer,
            ap added.heap x ∙ put_at q.heap a (some timer),
            ground arith,
            is_in-insert_in (active k.second timer) (active a timer) q.active_timers ∙ ground arith,
          )
      entry_of k (inr s) e =
          let (t, h, x, i) = m.entries k (ground arith) in
          (
            t,
            kept_timer k.second t h,
            x,
            is_in-insert_in (active k.second t) (active a timer) q.active_timers ∙ ground arith,
          )

      active_of :
          (k : Key)
          → (same k (active a timer) ≡ true) ⊎ (same k (active a timer) ≡ false)
          → (same k (active a timer) || is_in k q.active_timers) ≡ true
          → (t : Timer) × (added.heap k.first ≡ some t)
            × (t.sequence ≡ k.second)
            × (is_in (entry k.first t) added.timers ≡ true)
      active_of k (inl s) e =
          let x : k.first ≡ a = ground arith in
          (
            timer,
            ap added.heap x ∙ put_at q.heap a (some timer),
            ground arith,
            is_in-insert_in (entry k.first timer) (entry a timer) q.timers ∙ ground arith,
          )
      active_of k (inr s) e =
          let (t, h, x, i) = m.actives k (ground arith) in
          (
            t,
            kept_timer k.first t h,
            x,
            is_in-insert_in (entry k.first t) (entry a timer) q.timers ∙ ground arith,
          )
