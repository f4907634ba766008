-- ===== src/ThreadPool/Tests.antt =====
-- One worker, two tasks, the stop of the pool, and the theorems on the way.
use ccnet.Prelude.{◌≡◌, ◌≤◌, ◌*◌, ◌⊎◌, refl, false, [], ◌∷◌, ◌++◌, arith}
use ccnet.Condition.{one_by_one, notify, wait}
use ccnet.ThreadPool.{
  ThreadPool, create, start, stop, run, take, is_full, begin_thread, test_running, take_task,
  call_task, remove_first, end_task,
}
use ccnet.ThreadPool.Hands.{occurrences}
use ccnet.ThreadPool.Steps.{
  WorkerStep, begins, tests, takes, calls, ends, works, runs, stops, run_pass, take_entered,
}
use ccnet.ThreadPool.Sound.{IsSound}
use ccnet.ThreadPool.Order.{started, Run, rests, goes_on, given, run-IsSound}
use ccnet.ThreadPool.Ends.{worker_steps, stop-Ends}

abbrev new : ThreadPool
new = started 1 1 false

abbrev filled : ThreadPool
filled = (run_pass one_by_one 7 new).left

-- The queue is full, so that the caller with the second task waits.
abbrev crowded : ThreadPool
crowded = (run_pass one_by_one 8 filled).left

abbrev ready : ThreadPool
ready = test_running (begin_thread crowded)

-- The worker has the task, and has not called it yet.
abbrev taken : ThreadPool
taken = take_task one_by_one (take_entered one_by_one ready)

abbrev called : ThreadPool
called = call_task 7 taken

caller_goes_on :
    (crowded.not_full.waiting ≡ 1)
    × (taken.held ≡ 7 ∷ [])
    × (called.called ≡ 7 ∷ [])
    × (called.not_full.woken ≡ 1)
unfolding create start run is_full begin_thread test_running take take_task call_task remove_first
    notify wait
caller_goes_on = (refl, refl, refl, refl)

until_called : Run one_by_one new (7 ∷ []) called
unfolding create start run is_full begin_thread test_running take take_task call_task remove_first
    occurrences notify wait given
until_called = goes_on (runs new 7) (
    goes_on (runs filled 8) (
      goes_on (works (begins crowded (omega arith))) (
        goes_on (works (tests (begin_thread crowded) (omega arith))) (
          goes_on (works (takes ready (omega arith)))
            (goes_on (works (calls taken 7 (omega arith))) (rests called))))))

run-IsSound_example : (7 ∷ [] ≡ called.dequeued ++ called.queue) × IsSound one_by_one called
run-IsSound_example = run-IsSound one_by_one 1 1 false until_called

abbrev stopped : ThreadPool
stopped = stop one_by_one called

until_stopped : Run one_by_one new (7 ∷ []) stopped
unfolding create start run is_full begin_thread test_running take take_task call_task remove_first
    occurrences notify wait given
until_stopped = goes_on (runs new 7) (
    goes_on (runs filled 8) (
      goes_on (works (begins crowded (omega arith))) (
        goes_on (works (tests (begin_thread crowded) (omega arith))) (
          goes_on (works (takes ready (omega arith))) (
            goes_on (works (calls taken 7 (omega arith)))
              (goes_on (stops called) (rests stopped)))))))

last : Run one_by_one stopped [] (end_task stopped)
unfolding create start run is_full begin_thread test_running take take_task call_task remove_first
    occurrences notify wait given stop
last = goes_on (works (ends stopped (omega arith))) (rests (end_task stopped))

stop-Ends_example :
    (worker_steps one_by_one last ≤ 4 * stopped.threads)
    × (((end_task stopped).finished ≡ (end_task stopped).threads)
        ⊎ ((t : ThreadPool) × WorkerStep one_by_one (end_task stopped) t))
unfolding stop
stop-Ends_example = stop-Ends one_by_one 1 1 false until_stopped refl last

-- Two workers take a task each, and the second is called before the first.
abbrev ready_two : ThreadPool
ready_two = test_running (
    begin_thread (
      test_running (
        begin_thread
          (run_pass one_by_one 8 (run_pass one_by_one 7 (started 2 0 false)).left).left)))

abbrev taken_two : ThreadPool
taken_two =
    take_task one_by_one
      (take_entered one_by_one (take_task one_by_one (take_entered one_by_one ready_two)))

out_of_order :
    (taken_two.dequeued ≡ 7 ∷ 8 ∷ [])
    × ((call_task 7 (call_task 8 taken_two)).called ≡ 8 ∷ 7 ∷ [])
    × ((call_task 7 (call_task 8 taken_two)).held ≡ [])
unfolding create start run is_full begin_thread test_running take take_task call_task remove_first
    notify wait
out_of_order = (refl, refl, refl)
