-- ===== src/EventLoopThread/Tests.antt =====
-- A thread whose starter waits before the loop is there.
use ccnet.Prelude.{◌≡◌, refl, inl, true}
use ccnet.Prelude.Outcome.{value_or}
use ccnet.Condition.{one_by_one}
use ccnet.EventLoopThread.{EventLoopThread, returned, create, start_loop, wait_loop}
use ccnet.EventLoopThread.Handover.{
  acts, OwnRun, Run, rests, goes_on, starts, enters, start_loop-Returns,
}

abbrev started : EventLoopThread
started = value_or create (start_loop create)

abbrev waits : EventLoopThread
waits = wait_loop started

waits_run : Run one_by_one create waits
unfolding create start_loop
waits_run =
    goes_on (acts (starts create started refl))
      (goes_on (acts (enters started refl refl)) (rests waits))

start_loop-Returns_example :
    (u : EventLoopThread) × OwnRun one_by_one waits u × (u.starting ≡ returned true)
unfolding create start_loop wait_loop
start_loop-Returns_example = start_loop-Returns one_by_one waits_run (inl refl) refl
