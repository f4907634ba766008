-- ===== src/BlockingQueue/Tests.antt =====
-- A consumer that waits, two items, and a thread that takes the first before the consumer is back.
use ccnet.Prelude.{ℕ, ◌≡◌, refl, [], ◌∷◌, ◌++◌, length}
use ccnet.Condition.{one_by_one, IsCovered, wait, notify}
use ccnet.BlockingQueue.{BlockingQueue, create, put, take}
use ccnet.BlockingQueue.Flow.{passed, puts, enters, rests, goes_on, run-IsCovered, given, got}

abbrev waiting : BlockingQueue ℕ
waiting = (passed create).left

abbrev filled : BlockingQueue ℕ
filled = put one_by_one 8 (put one_by_one 7 waiting)

abbrev last : BlockingQueue ℕ
last = (passed filled).left

-- The consumer is woken, and the item 8 is left for it.
last_lem : (last.queue ≡ 8 ∷ []) × (last.not_empty.woken ≡ 1) × (last.not_empty.waiting ≡ 0)
unfolding create put take wait notify
last_lem = (refl, refl, refl)

run-IsCovered_example :
    (7 ∷ 8 ∷ [] ≡ (7 ∷ []) ++ last.queue) × IsCovered last.not_empty (length last.queue)
unfolding create put take given got
run-IsCovered_example = run-IsCovered one_by_one (
    goes_on (enters create) (
      goes_on (puts waiting 7)
        (goes_on (puts (put one_by_one 7 waiting) 8) (goes_on (enters filled) (rests last)))))
