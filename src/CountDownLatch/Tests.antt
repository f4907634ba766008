-- ===== src/CountDownLatch/Tests.antt =====
-- A latch of one event, a thread that waits for it and the event.
use ccnet.Prelude.{◌≡◌, refl, ◌<◌, false}
use ccnet.Prelude.Int.{pos, ◌≤ℤ◌, ◌-ℤ◌}
use ccnet.Condition.{one_by_one, notify_all}
use ccnet.Condition
use ccnet.CountDownLatch.{CountDownLatch, create, wait, count_down}
use ccnet.CountDownLatch.Opens.{
  Tally, Passes, rests, goes_on, enters, counts, none_yet, run-Returns,
}

abbrev waiting : CountDownLatch
waiting = (wait (create (pos 1))).left

abbrev down : CountDownLatch
down = count_down one_by_one waiting

waits_and_goes : ((wait (create (pos 1))).returned ≡ false) × (down.condition.woken ≡ 1)
unfolding create wait Condition.wait count_down notify_all ◌-ℤ◌
waits_and_goes = (refl, refl)

abbrev tally : Tally
tally = record { came = 1; counted = 1; returned = 0 }

run-Returns_example :
    ((0 < tally.returned) → pos 1 ≤ℤ pos tally.counted)
    × (pos 1 ≤ℤ pos tally.counted
        → (m : CountDownLatch) × Passes down tally m (record tally { returned = tally.came }))
unfolding create wait
run-Returns_example = run-Returns one_by_one (pos 1) (
    goes_on (enters (create (pos 1)) none_yet) (
      goes_on (counts waiting (record { came = 1; counted = 0; returned = 0 })) (rests down tally)))
