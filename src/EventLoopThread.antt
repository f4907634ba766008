-- ===== src/EventLoopThread.antt =====
-- net/event_loop_thread.cc: a thread that runs a loop, and the handover of the loop to the thread that
-- starts it. A critical section is one step; `startLoop` is a pass of its loop for each time that it gets
-- the mutex, and a read of `loop_` after that.
pub mod Handover
mod Tests
use ccnet.Prelude.{
  ℕ, zero, suc, ◌+◌, ◌-◌, ◌*◌, ◌/◌, ◌%◌, ◌^◌, ◌≤◌, ◌<◌, min, max, ◌≡◌, refl, sym, ap, ap₂, subst,
  ◌∙◌, ◌≡⟨◌⟩◌, ◌∎, ◌≢◌, ◌↔◌, ◌⊎◌, inl, inr, Bool, true, false, not, ◌&&◌, ◌||◌, Option, none, some,
  List, [], ◌∷◌, ◌++◌, map, append-nil, append_assoc, arith, ltb, leb, ◌==◌, if◌then◌else◌, ltb_iff,
  leb_iff, ==_iff, ==_refl, Bool-cases, Option-cases, length, get_elem?, get_or, take, drop,
  replicate, slice, write_at, length-append, length-take, length-drop, length-replicate,
}
use ccnet.Prelude.Outcome.{Outcome, ok, assert_failed, length_error, ◌>>=◌, ◌>>◌, assert}
use ccnet.Condition.{Condition, Pthread, quiet, notify}
use ccnet.Condition

-- Where `threadFunc` is: not started, before the loop is there, in the loop, or after it.
pub data Phase : Type 0 where
  unstarted preparing looping ended : Phase

-- Where the call of `startLoop` is: not made, in the loop of the wait, behind it, or returned.
pub data Starting : Type 0 where
  uncalled entering passed : Starting
  returned : Bool → Starting

-- `loop` tells whether `loop_` is set.
pub record EventLoopThread : Type 0 where
  pub loop : Bool
  pub exiting : Bool
  pub thread : Phase
  pub condition : Condition
  pub starting : Starting

unfoldable pub create : EventLoopThread
create = record {
  loop = false;
  exiting = false;
  thread = unstarted;
  condition = quiet;
  starting = uncalled;
}

abbrev pub is_unstarted : Phase → Bool
is_unstarted unstarted = true
is_unstarted preparing = false
is_unstarted looping = false
is_unstarted ended = false

unfoldable pub start_loop : EventLoopThread → Outcome EventLoopThread
start_loop t = do
  assert (is_unstarted t.thread)
  ok (record t { thread = preparing; starting = entering })

-- A pass of the loop that waits.
unfoldable pub wait_loop : EventLoopThread → EventLoopThread
wait_loop t =
    if t.loop
    then record t { starting = passed }
    else record t { condition = Condition.wait t.condition }

unfoldable pub return_loop : EventLoopThread → EventLoopThread
return_loop t = record t { starting = returned t.loop }

-- `threadFunc` up to its loop, and after it.
unfoldable pub publish_loop : Pthread → EventLoopThread → EventLoopThread
publish_loop p t = record t { thread = looping; loop = true; condition = notify p t.condition }

unfoldable pub end_thread : EventLoopThread → EventLoopThread
end_thread t = record t { thread = ended; loop = false }

-- `~EventLoopThread`, with whether it quits the loop and joins the thread.
unfoldable pub destroy : EventLoopThread → Bool × EventLoopThread
destroy t = (t.loop, record t { exiting = true })
