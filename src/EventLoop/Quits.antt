-- ===== src/EventLoop/Quits.antt =====
-- net/event_loop.cc: what the loop still does after `quit`.
use ccnet.Prelude.{ℕ, ◌+◌, ◌≤◌, ◌<◌, ◌≡◌, refl, ap, inl, inr, true, List, arith, Bool-cases}
use ccnet.EventLoop.{
  EventLoop, Phase, stopped, testing, polling, handling, calling, is_calling, wakeup, push,
  queue_in_loop, queue_elsewhere, wakeup_elsewhere, handle_read, take_pending, call_next, test_quit,
  quit_in_loop, quit_elsewhere,
}
use ccnet.EventLoop.Steps.{
  ◌⟶◌, begins, tests, quits, quits_elsewhere, queues, queues_elsewhere, wakes, returns, reads,
  takes, calls, sleeps, IsAwake, step-IsAwake,
}
use ccnet.EventLoop.Wakeup.{Run, rests, goes_on}

-- How many times the loop's thread has still to turn to the next part of its round.
abbrev pub turns_left : Phase → ℕ
turns_left stopped = 0
turns_left testing = 1
turns_left calling = 2
turns_left handling = 3
turns_left polling = 4

-- Whether a step is such a turn.
unfoldable pub turn : {l m : EventLoop} → l ⟶ m → ℕ
turn (begins l m e) = 0
turn (tests l e) = 1
turn (quits l s) = 0
turn (quits_elsewhere l) = 0
turn (queues l f s) = 0
turn (queues_elsewhere l f) = 0
turn (wakes l one) = 0
turn (returns l e) = 1
turn (reads l e) = 0
turn (takes l e) = 1
turn (calls l f fs e s) = 0
turn (sleeps l e s) = 1

unfoldable pub turns : {l m : EventLoop} {fs : List ℕ} → Run l fs m → ℕ
turns (rests l) = 0
turns (goes_on s r) = turn s + turns r

-- How often the loop is begun.
unfoldable pub begun : {l m : EventLoop} → l ⟶ m → ℕ
begun (begins l m e) = 1
begun s = 0

unfoldable pub begun_in : {l m : EventLoop} {fs : List ℕ} → Run l fs m → ℕ
begun_in (rests l) = 0
begun_in (goes_on s r) = begun s + begun_in r

-- A loop that has quit turns to the end of its round.
quit_step :
    {l m : EventLoop} (s : l ⟶ m)
    → begun s ≡ 0
    → l.quit ≡ true
    → (m.quit ≡ true) × (turn s + turns_left m.phase ≡ turns_left l.phase)
unfolding begun turn
quit_step (begins l m e) b q = absurd (omega (arith, b))
quit_step (tests l e) b q = unfold test_quit in (q, simp (q, e) refl)
quit_step (quits l s) b q = unfold quit_in_loop in (refl, omega arith)
quit_step (quits_elsewhere l) b q = unfold quit_elsewhere in (refl, omega arith)
quit_step (queues l f s) b q = elim (Bool-cases (is_calling l.phase)) [
  | inl c ↦ unfold queue_in_loop push wakeup in (simp c q, simp c (omega arith))
  | inr c ↦ unfold queue_in_loop push wakeup in (simp c q, simp c (omega arith))
]
quit_step (queues_elsewhere l f) b q = unfold queue_elsewhere push in (q, omega arith)
quit_step (wakes l one) b q = unfold wakeup_elsewhere wakeup in (q, omega arith)
quit_step (returns l e) b q = (q, omega (arith, ap turns_left e))
quit_step (reads l e) b q = unfold handle_read in (q, omega arith)
quit_step (takes l e) b q = unfold take_pending in (q, omega (arith, ap turns_left e))
quit_step (calls l f fs e s) b q = unfold call_next in (q, omega arith)
quit_step (sleeps l e s) b q = (q, omega (arith, ap turns_left e))

quit_run :
    {l m : EventLoop} {fs : List ℕ} (r : Run l fs m)
    → begun_in r ≡ 0
    → IsAwake l
    → l.quit ≡ true
    → IsAwake m × (m.quit ≡ true) × (turns r + turns_left m.phase ≡ turns_left l.phase)
unfolding turns begun_in
quit_run (rests l) b v q = (v, q, omega arith)
quit_run (goes_on s r) b v q =
    let (p, e) = quit_step s (omega (arith, b)) q in
    let (w, t, f) = quit_run r (omega (arith, b)) (step-IsAwake s v) p in
    (w, t, omega (arith, e, f))

-- From a loop whose wakeups are there and whose `quit_` is set, whatever it and the other threads do, and
-- until it is begun again: its thread turns at most four times to the next part of its round, which
-- brings it out of `loop`, and it never waits in `poll` without a wakeup that is there or on its way.
pub quit-Ends :
    {l m : EventLoop} {fs : List ℕ} (r : Run l fs m)
    → begun_in r ≡ 0
    → IsAwake l
    → l.quit ≡ true
    → (turns r ≤ 4)
      × (turns r ≡ turns_left l.phase → m.phase ≡ stopped)
      × (m.phase ≡ polling → 0 < m.wakeup_count + m.in_flight)
quit-Ends {l = l} {m = m} r b v q =
    let (w, t, f) = quit_run r b v q in
    (
      omega (arith, f, few l.phase),
      λ e. ended m.phase (omega (arith, e, f)),
      λ p. w.quits_awake p t,
    )
  where
    few : (p : Phase) → turns_left p ≤ 4
    few stopped = omega arith
    few testing = omega arith
    few polling = omega arith
    few handling = omega arith
    few calling = omega arith

    ended : (p : Phase) → turns_left p ≡ 0 → p ≡ stopped
    ended stopped e = refl
    ended testing e = absurd (omega (arith, e))
    ended polling e = absurd (omega (arith, e))
    ended handling e = absurd (omega (arith, e))
    ended calling e = absurd (omega (arith, e))
