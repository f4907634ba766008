-- ===== src/TimerQueue/Tests.antt =====
-- A queue with two timers, and its theorems there.
use ccnet.Prelude.{refl, false, none, some, [], ◌∷◌, arith}
use ccnet.Prelude.Maps.{put}
use ccnet.Prelude.Sets.{is_in, IsDistinct}
use ccnet.Prelude.{◌≡◌, ◌<◌, true}
use ccnet.Prelude.Sets.{Key}
use ccnet.TimerQueue.{
  handle_read, Timer, TimerQueue, add_timer, cancel_in_loop, get_expired, uintptr_max, reset_each,
}
use ccnet.TimerQueue.Expired.{IsAscending, Expires, get_expired-Expires}
use ccnet.TimerQueue.Matched.{IsMatched, Cancels, cancel_in_loop-Cancels}
use ccnet.TimerQueue.Reads.{cancel-IsKind, Returns, handle_read-Returns}
use ccnet.TimerQueue.Restarted.{Resets, reset_each-Resets}
use ccnet.TimerQueue.Added.{Adds, add_timer-Adds}

abbrev empty : TimerQueue
empty = record {
  heap = λ _. none;
  timers = [];
  active_timers = [];
  calling_expired_timers = false;
  canceling_timers = [];
  armed = none;
  created = 0;
}

empty-IsMatched : IsMatched empty
unfolding is_in IsDistinct
empty-IsMatched = record {
  sizes = refl;
  distinct = tt;
  active_distinct = tt;
  entries = λ k e. absurd cc;
  actives = λ k e. absurd cc;
}

add_timer-Adds_example : Adds empty 64 1000 (add_timer 64 1000 0 false empty)
add_timer-Adds_example = add_timer-Adds empty empty-IsMatched 64 1000 0 false refl

abbrev second_timer : Timer
second_timer = record { expiration = 1000; interval = 0; repeat = false; sequence = 1 }

abbrev one : TimerQueue
one = record empty {
  heap = put empty.heap 64 (some second_timer);
  timers = record { first = 1000; second = 64 } ∷ [];
  active_timers = record { first = 64; second = 1 } ∷ [];
  created = 1;
}

one-IsMatched : IsMatched one
unfolding is_in IsDistinct put
one-IsMatched = record {
  sizes = refl;
  distinct = (refl, tt);
  active_distinct = (refl, tt);
  entries = λ k e. (second_timer, ground arith, ground arith, ground arith);
  actives = λ k e. (second_timer, ground arith, ground arith, ground arith);
}

cancel_in_loop-Cancels_example :
    Cancels one
      (record { first = 64; second = 1 })
      (cancel_in_loop (record { first = 64; second = 1 }) one)
cancel_in_loop-Cancels_example =
    cancel_in_loop-Cancels one (record { first = 64; second = 1 }) one-IsMatched

one_below : (k : Key) → is_in k one.timers ≡ true → k.second < uintptr_max
unfolding is_in
one_below k e = ground arith

one-IsAscending : IsAscending one.timers
unfolding IsAscending is_in
one-IsAscending = (λ x e. absurd cc, tt)

get_expired-Expires_example : Expires 1000 one (get_expired 1000 one)
get_expired-Expires_example = get_expired-Expires 1000 one one-IsMatched one-IsAscending one_below

-- A timer that is repeated every 500 microseconds, and was taken out at 1000.
abbrev repeated : Timer
repeated = record { expiration = 1000; interval = 500; repeat = true; sequence = 1 }

abbrev taken_out : TimerQueue
taken_out = record empty { heap = put empty.heap 64 (some repeated); created = 1 }

taken_out-IsMatched : IsMatched taken_out
unfolding is_in IsDistinct
taken_out-IsMatched = record {
  sizes = refl;
  distinct = tt;
  active_distinct = tt;
  entries = λ k e. absurd cc;
  actives = λ k e. absurd cc;
}

reset_each-Resets_example :
    Resets 1200 taken_out
      (record { first = 1000; second = 64 } ∷ [])
      (reset_each 1200 (record { first = 1000; second = 64 } ∷ []) taken_out)
unfolding is_in put
reset_each-Resets_example =
    reset_each-Resets 1200 taken_out (record { first = 1000; second = 64 } ∷ []) taken_out-IsMatched
      ((repeated, refl), λ x i. absurd cc, tt, tt)

-- The callback cancels its own timer.
handle_read-Returns_example :
    Returns (handle_read (λ a q. cancel_in_loop (record { first = a; second = 1 }) q) 1000 one)
handle_read-Returns_example =
    handle_read-Returns (λ a q. cancel_in_loop (record { first = a; second = 1 }) q) 1000 one
      (cancel-IsKind (λ a. record { first = a; second = 1 })) one-IsMatched one-IsAscending
      one_below
