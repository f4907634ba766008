-- ===== src/TimerQueue/Added.antt =====
-- net/timer_queue.cc: a new timer in the two sets.
use ccnet.Prelude.{ℕ, suc, ◌≡◌, refl, ap, ◌∙◌, Bool, true, false, ◌||◌, none, some, if◌then◌else◌}
use ccnet.Prelude.Outcome.{Outcome, ok}
use ccnet.Prelude.Maps.{put_at}
use ccnet.Prelude.Sets.{Key, same, is_in, is_in-insert_in}
use ccnet.TimerQueue.{
  Timer, TimerQueue, entry, active, timer_at, insert_timer, add_timer, add_timer_in_loop,
  is_earliest, reset_timerfd,
}
use ccnet.TimerQueue.Inserted.{added, added-IsMatched, new_entry, new_active}
use ccnet.TimerQueue.Matched.{IsMatched, sizes_agree_lem, same_self}

-- The call returns the timer's identifier, keeps the sets matched and adds that timer only; the
-- descriptor is set where the timer is the earliest.
pub record Adds (q : TimerQueue) (a when : ℕ) (r : Outcome (Key × TimerQueue)) : Type 0 where
  pub id : Key
  pub result : TimerQueue
  pub returns : r ≡ ok (id, result)
  pub matched : IsMatched result
  pub others : (k : Key) → is_in k result.active_timers ≡ (same k id || is_in k q.active_timers)
  pub due : is_in (record { first = when; second = a }) result.timers ≡ true
  pub earliest : is_earliest when q.timers ≡ true → result.armed ≡ some when

module _ (q : TimerQueue) (m : IsMatched q) (a when interval : ℕ) (repeat : Bool)
    (free : q.heap a ≡ none) where
  abbrev timer : Timer
  timer = record {
    expiration = when;
    interval = interval;
    repeat = repeat;
    sequence = suc q.created;
  }

  abbrev made : TimerQueue
  made = added q m a timer free (suc q.created)

  made-IsMatched : IsMatched made
  made-IsMatched = added-IsMatched q m a timer free (suc q.created)

  armed_or_not : Bool → TimerQueue
  armed_or_not b = if b then record made { armed = some when } else made

  armed_lem :
      (b : Bool)
      → IsMatched (armed_or_not b)
        × ((armed_or_not b).active_timers ≡ made.active_timers)
        × ((armed_or_not b).timers ≡ made.timers)
        × (b ≡ true → (armed_or_not b).armed ≡ some when)
  unfolding armed_or_not
  armed_lem true = (
    record {
      sizes = w.sizes;
      distinct = w.distinct;
      active_distinct = w.active_distinct;
      entries = w.entries;
      actives = w.actives;
    },
    refl,
    refl,
    λ _. refl,
  )
    where
      w : IsMatched made
      w = made-IsMatched
  armed_lem false = (made-IsMatched, refl, refl, λ e. absurd cc)

  add_timer_eq :
      add_timer a when interval repeat q
      ≡ ok (active a timer, armed_or_not (is_earliest when q.timers))
  unfolding add_timer add_timer_in_loop insert_timer timer_at reset_timerfd armed_or_not
  add_timer_eq = simp (
    put_at q.heap a (some timer),
    sizes_agree_lem q m,
    new_entry q m a timer free (suc q.created),
    new_active q m a timer free (suc q.created),
    sizes_agree_lem made made-IsMatched,
  )

  -- On matched sets, and at an address that no timer has, `addTimer` fails no assertion, keeps the
  -- sets matched, adds the new timer only, and sets the descriptor where that timer is the earliest.
  pub add_timer-Adds : Adds q a when (add_timer a when interval repeat q)
  add_timer-Adds =
      let (w, same_active, same_timers, armed) = armed_lem (is_earliest when q.timers) in
      record {
        id = active a timer;
        result = armed_or_not (is_earliest when q.timers);
        returns = add_timer_eq;
        matched = w;
        others = λ k. ap (is_in k) same_active ∙ is_in-insert_in k (active a timer) q.active_timers;
        due =
            ap (is_in (entry a timer)) same_timers
            ∙ is_in-insert_in (entry a timer) (entry a timer) q.timers
            ∙ rw (same_self (entry a timer)) refl;
        earliest = armed;
      }
