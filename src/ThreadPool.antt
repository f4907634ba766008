-- ===== src/ThreadPool.antt =====
-- base/thread_pool.h and base/thread_pool.cc: worker threads that take tasks from a queue. A call of
-- `run` or `take` is a pass of its loop for each time that it gets the mutex. Tasks are numbers, and
-- a task that throws, which ends the program, is left out.
pub mod Hands
pub mod Steps
pub mod Sound
pub mod Order
pub mod Ends
mod Tests
use ccnet.Prelude.{
  ℕ, ◌+◌, ◌-◌, ◌<◌, ◌≡◌, ◌==◌, leb, ltb, ◌&&◌, Bool, true, false, not, if◌then◌else◌, List, [], ◌∷◌,
  ◌++◌, length,
}
use ccnet.Prelude.Outcome.{Outcome, ok, ◌>>=◌, ◌>>◌, assert}
use ccnet.Condition.{Condition, Pthread, quiet, wait, notify, notify_all, resume}

-- The fields of the pool; then how many workers are about to begin, to test `running_` and to call
-- `take`, call a task or have returned, and the calls of the init callback; the tasks that workers
-- have taken and not called yet, those taken so far in their order, and those called so far in theirs.
pub record ThreadPool : Type 0 where
  pub queue : List ℕ
  pub max_queue_size : ℕ
  pub running : Bool
  pub threads : ℕ
  pub not_empty : Condition
  pub not_full : Condition
  pub init_callback : Bool
  pub fresh : ℕ
  pub idle : ℕ
  pub taking : ℕ
  pub busy : ℕ
  pub finished : ℕ
  pub init_calls : ℕ
  pub held : List ℕ
  pub dequeued : List ℕ
  pub called : List ℕ

-- With the queue bounded by `max_size` or, for 0, unbounded, and with or without an init callback.
unfoldable pub create : ℕ → Bool → ThreadPool
create max_size has_callback = record {
  queue = [];
  max_queue_size = max_size;
  running = false;
  threads = 0;
  not_empty = quiet;
  not_full = quiet;
  init_callback = has_callback;
  fresh = 0;
  idle = 0;
  taking = 0;
  busy = 0;
  finished = 0;
  init_calls = 0;
  held = [];
  dequeued = [];
  called = [];
}

abbrev calls_of : Bool → ℕ
calls_of true = 1
calls_of false = 0

unfoldable pub start : ℕ → ThreadPool → Outcome ThreadPool
start num_threads q = do
  assert (q.threads == 0)
  ok (record q {
    running = true;
    threads = num_threads;
    fresh = num_threads;
    init_calls = q.init_calls + calls_of ((num_threads == 0) && q.init_callback);
  })

-- Up to the joins, which wait until all workers have returned.
unfoldable pub stop : Pthread → ThreadPool → ThreadPool
stop p q = record q { running = false; not_empty = notify_all p q.not_empty }

-- `~ThreadPool`.
unfoldable pub destroy : Pthread → ThreadPool → ThreadPool
destroy p q = if q.running then stop p q else q

unfoldable pub queue_size : ThreadPool → ℕ
queue_size q = length q.queue

unfoldable pub is_full : ThreadPool → Bool
is_full q = ltb 0 q.max_queue_size && leb q.max_queue_size (length q.queue)

-- Whether the task was taken in, in this pass of `run`.
pub record RunPass : Type 0 where
  pub accepted : Bool
  pub left : ThreadPool

-- Without threads the caller runs the task itself: it counts as taken and called.
unfoldable pub run : Pthread → ℕ → ThreadPool → Outcome RunPass
run p task q = elim (q.threads == 0) [
  | true ↦ ok (record {
    accepted = true;
    left = record q { dequeued = q.dequeued ++ (task ∷ []); called = q.called ++ (task ∷ []) };
  })
  | false ↦ elim (is_full q) [
    | true ↦ ok (record { accepted = false; left = record q { not_full = wait q.not_full } })
    | false ↦ (do
      assert (not (is_full q))
      ok (record {
        accepted = true;
        left = record q { queue = q.queue ++ (task ∷ []); not_empty = notify p q.not_empty };
      }))
  ]
]

-- What a pass of `take` did: the thread waits on, or it returned with a task or with none.
pub data Taken : Type 0 where
  waits nothing : Taken
  task : ℕ → Taken

pub record TakePass : Type 0 where
  pub result : Taken
  pub left : ThreadPool

abbrev take_from : Pthread → List ℕ → Bool → ThreadPool → TakePass
take_from p [] true q = record { result = waits; left = record q { not_empty = wait q.not_empty } }
take_from p [] false q = record { result = nothing; left = q }
take_from p (x ∷ xs) r q = record {
  result = task x;
  left = record q {
    queue = xs;
    dequeued = q.dequeued ++ (x ∷ []);
    not_full = if ltb 0 q.max_queue_size then notify p q.not_full else q.not_full;
  };
}

unfoldable pub take : Pthread → ThreadPool → TakePass
take p q = take_from p q.queue q.running q

-- `runInThread`: its beginning, its loop's test, a pass of `take`, the call of a task, which is made
-- without the mutex and may come at any time after that, and the end of a task.
unfoldable pub begin_thread : ThreadPool → ThreadPool
begin_thread q = record q {
  fresh = q.fresh - 1;
  idle = q.idle + 1;
  init_calls = q.init_calls + calls_of q.init_callback;
}

unfoldable pub test_running : ThreadPool → ThreadPool
test_running q =
    if q.running
    then record q { idle = q.idle - 1; taking = q.taking + 1 }
    else record q { idle = q.idle - 1; finished = q.finished + 1 }

abbrev after_take : Taken → ThreadPool → ThreadPool
after_take waits q = q
after_take nothing q = record q { idle = q.idle + 1 }
after_take (task x) q = record q { held = x ∷ q.held }

unfoldable pub take_task : Pthread → ThreadPool → ThreadPool
take_task p q = after_take (take p q).result (take p q).left

unfoldable pub remove_first : ℕ → List ℕ → List ℕ
remove_first x [] = []
remove_first x (y ∷ ys) = let rest = remove_first x ys in if y == x then ys else y ∷ rest

-- By a worker that holds the task.
unfoldable pub call_task : ℕ → ThreadPool → ThreadPool
call_task x q = record q {
  held = remove_first x q.held;
  busy = q.busy + 1;
  called = q.called ++ (x ∷ []);
}

unfoldable pub end_task : ThreadPool → ThreadPool
end_task q = record q { busy = q.busy - 1; idle = q.idle + 1 }
