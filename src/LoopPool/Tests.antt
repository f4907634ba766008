-- ===== src/LoopPool/Tests.antt =====
-- A pool of three loops.
use ccnet.Prelude.{◌≡◌, refl, true, false, [], ◌∷◌, arith}
use ccnet.Prelude.Outcome.{ok, assert_failed}
use ccnet.LoopPool.{LoopPool, take_loops, get_next_loop, loop_at, get_loop_for_hash}
use ccnet.LoopPool.RoundRobin.{take_loops-length}

abbrev three : LoopPool
three = record { base_loop = 0; loops = 1 ∷ 2 ∷ 3 ∷ []; started = true; next = 0 }

hashed :
    (get_loop_for_hash three 7 ≡ ok 2)
    × (get_next_loop (record three { started = false }) ≡ assert_failed)
unfolding get_loop_for_hash get_next_loop loop_at
hashed = (refl, refl)

take_loops-length_example : take_loops 3 three ≡ ok (1 ∷ 2 ∷ 3 ∷ [], three)
take_loops-length_example = take_loops-length three refl (omega arith) refl
