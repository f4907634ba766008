-- ===== src/TimerQueue.antt =====
-- net/timer_queue.cc and net/timer.cc: timers in two sets, by expiration and by address. A time is
-- the number of microseconds since 1970. The address of a new timer is what `new` gives.
pub mod Matched
pub mod Inserted
pub mod Added
pub mod Expired
pub mod Taken
pub mod Restarted
pub mod Reads
mod Tests
use ccnet.Prelude.{
  ℕ, zero, suc, ◌+◌, ◌-◌, ◌*◌, ◌/◌, ◌%◌, ◌^◌, ◌≤◌, ◌<◌, min, max, ◌≡◌, refl, sym, ap, ap₂, subst,
  ◌∙◌, ◌≡⟨◌⟩◌, ◌∎, ◌≢◌, ◌↔◌, ◌⊎◌, inl, inr, Bool, true, false, not, ◌&&◌, ◌||◌, Option, none, some,
  List, [], ◌∷◌, ◌++◌, map, append-nil, append_assoc, arith, ltb, leb, ◌==◌, if◌then◌else◌, ltb_iff,
  leb_iff, ==_iff, ==_refl, Bool-cases, Option-cases, length, get_elem?, get_or, take, drop,
  replicate, slice, write_at, length-append, length-take, length-drop, length-replicate,
}
use ccnet.Prelude.Outcome.{Outcome, ok, assert_failed, length_error, ◌>>=◌, ◌>>◌, assert, value_or}
use ccnet.Prelude.Maps.{put}
use ccnet.Prelude.Sets.{Key, before, is_in, insert_in, erase_from, front, back}

-- `interval` is in microseconds, as `addTime` adds it.
pub record Timer : Type 0 where
  pub expiration : ℕ
  pub interval : ℕ
  pub repeat : Bool
  pub sequence : ℕ

-- An invalid timestamp is 0.
unfoldable pub restart : ℕ → Timer → Timer
restart now t = record t { expiration = if t.repeat then now + t.interval else 0 }

-- `heap` holds the timers by address, and nothing where they are deleted; `armed` is the expiration
-- that the timer descriptor was last set to; `created` is `s_numCreated_`.
pub record TimerQueue : Type 0 where
  pub heap : ℕ → Option Timer
  pub timers : List Key
  pub active_timers : List Key
  pub calling_expired_timers : Bool
  pub canceling_timers : List Key
  pub armed : Option ℕ
  pub created : ℕ

-- `howMuchTimeFromNow`: seconds and nanoseconds.
unfoldable pub how_much_time_from_now : ℕ → ℕ → ℕ × ℕ
how_much_time_from_now when now =
    let microseconds = if ltb when (now + 100) then 100 else when - now in
    (microseconds / 1000000, microseconds % 1000000 * 1000)

-- The descriptor is set to the time from now; what is kept is the expiration that it is set for.
unfoldable pub reset_timerfd : ℕ → TimerQueue → TimerQueue
reset_timerfd expiration q = record q { armed = some expiration }

abbrev pub entry : ℕ → Timer → Key
entry a t = record { first = t.expiration; second = a }

abbrev pub active : ℕ → Timer → Key
active a t = record { first = a; second = t.sequence }

abbrev pub sizes_agree : TimerQueue → Bool
sizes_agree q = length q.timers == length q.active_timers

-- Following a pointer to a deleted timer is undefined in C++; it stands as a failed assertion.
unfoldable pub timer_at : TimerQueue → ℕ → Outcome Timer
timer_at q a = by (q.heap a)
  where
    by : Option Timer → Outcome Timer
    by none = assert_failed
    by (some t) = ok t

abbrev pub is_earliest : ℕ → List Key → Bool
is_earliest when [] = true
is_earliest when (k ∷ ks) = ltb when k.first

-- Whether the earliest expiration changes, and the queue with the timer in both sets.
unfoldable pub insert_timer : ℕ → Timer → TimerQueue → Outcome (Bool × TimerQueue)
insert_timer a t q = do
  assert (sizes_agree q)
  assert (not (is_in (entry a t) q.timers))
  assert (not (is_in (active a t) q.active_timers))
  let r : TimerQueue = record q {
    timers = insert_in (entry a t) q.timers;
    active_timers = insert_in (active a t) q.active_timers;
  }
  assert (sizes_agree r)
  ok (is_earliest t.expiration q.timers, r)

unfoldable pub insert : ℕ → TimerQueue → Outcome (Bool × TimerQueue)
insert a q = do t ← timer_at q a; insert_timer a t q

unfoldable pub add_timer_in_loop : ℕ → TimerQueue → Outcome TimerQueue
add_timer_in_loop a q = do
  t ← timer_at q a
  (earliest_changed, r) ← insert_timer a t q
  ok (if earliest_changed then reset_timerfd t.expiration r else r)

-- `addTimer` in the loop's thread, where `new` gives the address `a`; its identifier is a key.
unfoldable pub add_timer : ℕ → ℕ → ℕ → Bool → TimerQueue → Outcome (Key × TimerQueue)
add_timer a when interval repeat q = do
  let t : Timer = record {
    expiration = when;
    interval = interval;
    repeat = repeat;
    sequence = suc q.created;
  }
  r ← add_timer_in_loop a (record q { heap = put q.heap a (some t); created = suc q.created })
  ok (active a t, r)

unfoldable pub cancel_timer : Key → Timer → TimerQueue → Outcome TimerQueue
cancel_timer id t q = do
  assert (is_in (entry id.first t) q.timers)
  let r : TimerQueue = record q {
    heap = put q.heap id.first none;
    timers = erase_from (entry id.first t) q.timers;
    active_timers = erase_from id q.active_timers;
  }
  assert (sizes_agree r)
  ok r

unfoldable pub cancel_in_loop : Key → TimerQueue → Outcome TimerQueue
cancel_in_loop id q = do
  assert (sizes_agree q)
  if is_in id q.active_timers
      then (do t ← timer_at q id.first; cancel_timer id t q)
      else ok (
          if q.calling_expired_timers
          then record q { canceling_timers = insert_in id q.canceling_timers }
          else q)

-- The largest address.
abbrev pub uintptr_max : ℕ
uintptr_max = 2 ^ 64 - 1

-- The timers that expired are taken out of the set of active ones, one by one.
unfoldable pub deactivate : List Key → TimerQueue → Outcome TimerQueue
deactivate [] q = ok q
deactivate (k ∷ ks) q = do
  t ← timer_at q k.second
  assert (is_in (active k.second t) q.active_timers)
  deactivate ks (record q { active_timers = erase_from (active k.second t) q.active_timers })

abbrev pub is_after : ℕ → List Key → Bool
is_after now [] = true
is_after now (k ∷ ks) = ltb now k.first

unfoldable pub get_expired : ℕ → TimerQueue → Outcome (List Key × TimerQueue)
get_expired now q = do
  assert (sizes_agree q)
  let sentry : Key = record { first = now; second = uintptr_max }
  assert (is_after now (back sentry q.timers))
  r ← deactivate (front sentry q.timers) (record q { timers = back sentry q.timers })
  assert (sizes_agree r)
  ok (front sentry q.timers, r)

-- A repeated timer that is not cancelled is set anew; another is deleted.
unfoldable pub reset_each : ℕ → List Key → TimerQueue → Outcome TimerQueue
reset_each now [] q = ok q
reset_each now (k ∷ ks) q = do
  t ← timer_at q k.second
  r ←
      (if t.repeat && not (is_in (active k.second t) q.canceling_timers)
        then (do
          (_, r) ← insert k.second (record q { heap = put q.heap k.second (some (restart now t)) })
          ok r)
        else ok (record q { heap = put q.heap k.second none }))
  reset_each now ks r

unfoldable pub next_expire : TimerQueue → Outcome ℕ
next_expire q = by q.timers
  where
    by : List Key → Outcome ℕ
    by [] = ok 0
    by (k ∷ ks) = timer_at q k.second >>= λ t. ok t.expiration

unfoldable pub reset : ℕ → List Key → TimerQueue → Outcome TimerQueue
reset now expired q = do
  r ← reset_each now expired q
  when ← next_expire r
  ok (if ltb 0 when then reset_timerfd when r else r)

-- The callbacks, of which each may add and cancel timers.
unfoldable pub run_each :
    (ℕ → TimerQueue → Outcome TimerQueue) → List Key → TimerQueue → Outcome TimerQueue
run_each callback [] q = ok q
run_each callback (k ∷ ks) q = do
  _ ← timer_at q k.second
  r ← callback k.second q
  run_each callback ks r

unfoldable pub handle_read :
    (ℕ → TimerQueue → Outcome TimerQueue) → ℕ → TimerQueue → Outcome TimerQueue
handle_read callback now q = do
  (expired, r) ← get_expired now q
  s ← run_each callback expired (record r { calling_expired_timers = true; canceling_timers = [] })
  reset now expired (record s { calling_expired_timers = false })
