-- ===== src/CountDownLatch.antt =====
-- base/count_down_latch.h and base/count_down_latch.cc: threads that wait for a number of events.
-- The count is an unbounded integer. A call of `wait` is a pass of its loop for each time that it
-- gets the mutex.
pub mod Opens
mod Tests
use ccnet.Prelude.{◌==◌, if◌then◌else◌, Bool, true, false, ◌+◌}
use ccnet.Prelude.Int.{ℤ, pos, ltb_ℤ, eqb_ℤ, ◌-ℤ◌}
use ccnet.Condition.{Condition, Pthread, quiet, notify_all}
use ccnet.Condition

pub record CountDownLatch : Type 0 where
  pub count : ℤ
  pub condition : Condition

-- Whether the call of `wait` returned in this pass.
pub record Pass : Type 0 where
  pub returned : Bool
  pub left : CountDownLatch

unfoldable pub create : ℤ → CountDownLatch
create count = record { count = count; condition = quiet }

unfoldable pub wait : CountDownLatch → Pass
wait l =
    if ltb_ℤ (pos 0) l.count
    then record { returned = false; left = record l { condition = Condition.wait l.condition } }
    else record { returned = true; left = l }

unfoldable pub count_down : Pthread → CountDownLatch → CountDownLatch
count_down p l =
    let count = l.count -ℤ pos 1 in
    if eqb_ℤ count (pos 0)
    then record { count = count; condition = notify_all p l.condition }
    else record l { count = count }

unfoldable pub get_count : CountDownLatch → ℤ
get_count l = l.count
