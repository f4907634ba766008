-- ===== src/EventLoop.antt =====
-- net/event_loop.cc: the rounds of the loop and its end, the functors that other threads hand to it, and
-- the wakeup that brings it back from its poll. A functor is a number. Threads take turns at the
-- granularity of the lock and of the system calls.
pub mod Steps
pub mod Wakeup
pub mod Quits
pub mod Dispatch
pub mod Guard
mod Tests
use ccnet.Prelude.Outcome.{Outcome, ok, ◌>>=◌, ◌>>◌, assert}
use ccnet.Prelude.{
  ℕ, zero, suc, ◌+◌, ◌-◌, ◌*◌, ◌/◌, ◌%◌, ◌^◌, ◌≤◌, ◌<◌, min, max, ◌≡◌, refl, sym, ap, ap₂, subst,
  ◌∙◌, ◌≡⟨◌⟩◌, ◌∎, ◌≢◌, ◌↔◌, ◌⊎◌, inl, inr, Bool, true, false, not, ◌&&◌, ◌||◌, Option, none, some,
  List, [], ◌∷◌, ◌++◌, map, append-nil, append_assoc, arith, ltb, leb, ◌==◌, if◌then◌else◌, ltb_iff,
  leb_iff, ==_iff, ==_refl, Bool-cases, Option-cases, length, get_elem?, get_or, take, drop,
  replicate, slice, write_at, length-append, length-take, length-drop, length-replicate,
}

-- Where the loop's thread is: outside `loop`, at its test of `quit_`, in `poll`, handling the active
-- channels, or calling functors. `looping_` is set in all phases but the first.
pub data Phase : Type 0 where
  stopped : Phase
  testing : Phase
  polling : Phase
  handling : Phase
  calling : Phase

-- `wakeup_count` is the counter of the eventfd, and `in_flight` the number of other threads that are
-- between the lock and the wakeup of `queueInLoop`, or between the two statements of `quit`.
pub record EventLoop : Type 0 where
  pub phase : Phase
  pub pending_functors : List ℕ
  pub functors : List ℕ
  pub wakeup_count : ℕ
  pub in_flight : ℕ
  pub called : List ℕ
  pub quit : Bool

-- `callingPendingFunctors_`.
abbrev pub is_calling : Phase → Bool
is_calling stopped = false
is_calling testing = false
is_calling polling = false
is_calling handling = false
is_calling calling = true

unfoldable pub wakeup : EventLoop → EventLoop
wakeup l = record l { wakeup_count = suc l.wakeup_count }

unfoldable pub push : ℕ → EventLoop → EventLoop
push f l = record l { pending_functors = l.pending_functors ++ (f ∷ []) }

-- `queueInLoop` in the loop's own thread.
unfoldable pub queue_in_loop : ℕ → EventLoop → EventLoop
queue_in_loop f l = let m = push f l in if is_calling m.phase then wakeup m else m

-- In another thread, under the lock, and the wakeup after it.
unfoldable pub queue_elsewhere : ℕ → EventLoop → EventLoop
queue_elsewhere f l = record (push f l) { in_flight = suc l.in_flight }

unfoldable pub wakeup_elsewhere : EventLoop → EventLoop
wakeup_elsewhere l = record (wakeup l) { in_flight = l.in_flight - 1 }

-- `handleRead`: reading the eventfd sets its counter to zero.
unfoldable pub handle_read : EventLoop → EventLoop
handle_read l = record l { wakeup_count = 0 }

-- The start of `doPendingFunctors` and a round of its loop.
unfoldable pub take_pending : EventLoop → EventLoop
take_pending l = record l { phase = calling; functors = l.pending_functors; pending_functors = [] }

unfoldable pub call_next : ℕ → List ℕ → EventLoop → EventLoop
call_next f fs l = record l { functors = fs; called = l.called ++ (f ∷ []) }

abbrev pub is_stopped : Phase → Bool
is_stopped stopped = true
is_stopped testing = false
is_stopped polling = false
is_stopped handling = false
is_stopped calling = false

-- The start of `loop`, and its test.
unfoldable pub begin_loop : EventLoop → Outcome EventLoop
begin_loop l = do assert (is_stopped l.phase); ok (record l { phase = testing; quit = false })

unfoldable pub test_quit : EventLoop → EventLoop
test_quit l = record l { phase = if l.quit then stopped else polling }

-- `quit` in the loop's own thread, and in another, which then goes on with its wakeup.
unfoldable pub quit_in_loop : EventLoop → EventLoop
quit_in_loop l = record l { quit = true }

unfoldable pub quit_elsewhere : EventLoop → EventLoop
quit_elsewhere l = record l { quit = true; in_flight = suc l.in_flight }
