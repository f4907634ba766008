-- ===== src/EventLoop/Tests.antt =====
-- A functor from another thread, up to its call.
use ccnet.Prelude.{
  ℕ, ◌+◌, ◌≤◌, ◌<◌, ◌≡◌, refl, true, false, List, [], ◌∷◌, arith, ◌==◌, if◌then◌else◌,
}
use ccnet.EventLoop.{
  test_quit, ok, take_pending, List, calling, false, handling, stopped, testing, true, wakeup, ℕ,
  EventLoop, polling, wakeup_elsewhere,
}
use ccnet.EventLoop.Steps.{IsAwake, wakes, returns, takes, sleeps, tests}
use ccnet.EventLoop.Wakeup.{Run, handed, rests, goes_on}
use ccnet.EventLoop.Quits.{begun, begun_in, turn, turns, turns_left, quit-Ends}
use ccnet.EventLoop.Dispatch.{
  handled, removed, Action, contains, remove_channel, remove_each, handle_event, handle_each,
  handle_active,
}
use ccnet.Prelude.Outcome.{assert_failed}
use ccnet.EventLoop.Guard.{AllSafe, IsCareful, handle_active-guarded}

abbrev start : EventLoop
start = record {
  phase = polling;
  pending_functors = [];
  functors = [];
  wakeup_count = 0;
  in_flight = 0;
  called = [];
  quit = false;
}

-- The loop after a `quit` of another thread, whose wakeup is still to come.
abbrev quitting : EventLoop
quitting = record start { quit = true; in_flight = 1 }

quitting-IsAwake : IsAwake quitting
quitting-IsAwake = record {
  woken = λ p n. omega arith;
  none_left = λ p. refl;
  quits_awake = λ p q. omega arith;
}

abbrev woken : EventLoop
woken = record quitting { wakeup_count = 1; in_flight = 0 }

abbrev at_handlers : EventLoop
at_handlers = record woken { phase = handling }

abbrev at_functors : EventLoop
at_functors = record woken { phase = calling }

abbrev at_test : EventLoop
at_test = record woken { phase = testing }

abbrev at_end : EventLoop
at_end = record woken { phase = stopped }

to_end : Run quitting [] at_end
unfolding handed wakeup_elsewhere wakeup take_pending test_quit
to_end = goes_on (wakes quitting (omega arith)) (
    goes_on (returns woken refl) (
      goes_on (takes at_handlers refl)
        (goes_on (sleeps at_functors refl refl) (goes_on (tests at_test refl) (rests at_end)))))

quit-Ends_example :
    (turns to_end ≤ 4)
    × (turns to_end ≡ turns_left quitting.phase → at_end.phase ≡ stopped)
    × (at_end.phase ≡ polling → 0 < at_end.wakeup_count + at_end.in_flight)
unfolding to_end begun_in begun turns turn
quit-Ends_example = quit-Ends to_end refl quitting-IsAwake refl

-- The handler of channel 5 removes it and channel 6, which is still to come: the guard stops the round.
abbrev removed_by : ℕ → List ℕ
removed_by c = if c == 5 then 5 ∷ 6 ∷ [] else []

stopped_round : handle_active removed_by (5 ∷ 6 ∷ []) ≡ assert_failed
unfolding handle_active handle_each handle_event remove_each remove_channel contains
stopped_round = refl

-- The handler of channel 5 removes it and channel 9, which is not active.
abbrev removed_elsewhere : ℕ → List ℕ
removed_elsewhere c = if c == 5 then 5 ∷ 9 ∷ [] else []

handled_round :
    handle_active removed_elsewhere (5 ∷ 6 ∷ [])
    ≡ ok (handled 6 ∷ removed 9 ∷ removed 5 ∷ handled 5 ∷ [])
unfolding handle_active handle_each handle_event remove_each remove_channel contains
handled_round = refl

handle_active-guarded_example :
    AllSafe (handle_active removed_elsewhere (5 ∷ 6 ∷ []))
    × (IsCareful removed_elsewhere (5 ∷ 6 ∷ [])
        → (xs : List Action) × (handle_active removed_elsewhere (5 ∷ 6 ∷ []) ≡ ok xs))
unfolding contains
handle_active-guarded_example =
    handle_active-guarded removed_elsewhere (5 ∷ 6 ∷ []) (refl, (refl, tt))
