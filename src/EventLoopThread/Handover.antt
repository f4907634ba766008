-- ===== src/EventLoopThread/Handover.antt =====
-- net/event_loop_thread.cc: the thread that waits in `startLoop` and the thread that runs the loop.
use ccnet.Prelude.{
  ◌+◌, ◌≤◌, ◌<◌, ◌≡◌, refl, sym, ap, subst, ◌∙◌, ◌≢◌, ◌⊎◌, inl, inr, true, false, arith, ltb,
  Bool-cases,
}
use ccnet.Prelude.Outcome.{Outcome, ok, assert_failed, value_or}
use ccnet.Condition.{Condition, Pthread, quiet, notify, resume, wake_spuriously}
use ccnet.Condition
use ccnet.EventLoopThread.{
  EventLoopThread, Phase, unstarted, preparing, looping, ended, Starting, uncalled, entering,
  passed, returned, create, start_loop, wait_loop, return_loop, publish_loop, end_thread,
}

abbrev resumed : EventLoopThread → EventLoopThread
resumed t = record t { condition = resume t.condition }

-- No thread waits on the condition or comes back from it.
abbrev pub IsFree : Condition → Type 0
IsFree c = c.waiting + c.woken ≡ 0

-- A step of one of the two threads.
pub data OwnStep (p : Pthread) : EventLoopThread → EventLoopThread → Type 0 where
  starts : (t u : EventLoopThread) → start_loop t ≡ ok u → OwnStep p t u
  enters :
      (t : EventLoopThread) → t.starting ≡ entering → IsFree t.condition → OwnStep p t (wait_loop t)
  resumes : (t : EventLoopThread) → 0 < t.condition.woken → OwnStep p t (wait_loop (resumed t))
  returns : (t : EventLoopThread) → t.starting ≡ passed → OwnStep p t (return_loop t)
  publishes : (t : EventLoopThread) → t.thread ≡ preparing → OwnStep p t (publish_loop p t)
  ends : (t : EventLoopThread) → t.thread ≡ looping → OwnStep p t (end_thread t)

-- A step of one of the two threads, or a wakeup without a notification.
pub data ThreadStep (p : Pthread) : EventLoopThread → EventLoopThread → Type 0 where
  acts : {t u : EventLoopThread} → OwnStep p t u → ThreadStep p t u
  wakes :
      (t : EventLoopThread)
      → 0 < t.condition.waiting
      → ThreadStep p t (record t { condition = wake_spuriously t.condition })

-- At most the starting thread is at the condition, and only while it is in its wait; it sleeps only
-- while no loop is there, and the loop is there as long as it runs.
pub record IsHanded (t : EventLoopThread) : Type 0 where
  pub alone : t.condition.waiting + t.condition.woken ≤ 1
  pub inside : t.starting ≢ entering → IsFree t.condition
  pub sleeps : 0 < t.condition.waiting → t.loop ≡ false
  pub there : t.thread ≡ looping → t.loop ≡ true
  pub only : t.loop ≡ true → t.thread ≡ looping
  pub called : t.thread ≢ unstarted → t.starting ≢ uncalled
  pub uncalled_yet : t.thread ≡ unstarted → t.starting ≡ uncalled

not_both : true ≡ false → ⊥
not_both e = cc

entering_called : entering ≡ uncalled → ⊥
entering_called e = cc

wait_loop-IsHanded :
    (t : EventLoopThread)
    → t.starting ≡ entering
    → IsFree t.condition
    → (t.thread ≡ looping → t.loop ≡ true)
    → (t.loop ≡ true → t.thread ≡ looping)
    → t.thread ≢ unstarted
    → IsHanded (wait_loop t)
unfolding wait_loop Condition.wait
wait_loop-IsHanded t e free there only other = elim (Bool-cases t.loop) [
  | inl l ↦ simp l (record {
    alone = omega (arith, free);
    inside = λ n. free;
    sleeps = λ w. absurd (omega (arith, free, w));
    there = λ f. refl;
    only = λ f. only l;
    called = λ n f. cc;
    uncalled_yet = λ f. absurd (other f);
  })
  | inr l ↦ simp l (record {
    alone = omega (arith, free);
    inside = λ n. absurd (n e);
    sleeps = λ w. refl;
    there = λ f. absurd (not_both (sym (there f) ∙ l));
    only = λ f. absurd cc;
    called = λ n f. entering_called (sym e ∙ f);
    uncalled_yet = λ f. absurd (other f);
  })
]

start_loop_lem :
    (t u : EventLoopThread)
    → start_loop t ≡ ok u
    → (t.thread ≡ unstarted) × (record t { thread = preparing; starting = entering } ≡ u)
unfolding start_loop
start_loop_lem t u e = by t.thread refl
  where
    failed : assert_failed ≡ ok u → ⊥
    failed f = cc

    at : Phase → Outcome EventLoopThread
    at s = start_loop (record t { thread = s })

    by :
        (s : Phase)
        → t.thread ≡ s
        → (t.thread ≡ unstarted) × (record t { thread = preparing; starting = entering } ≡ u)
    by unstarted f = (f, ap (value_or t) (ap at (sym f) ∙ e))
    by preparing f = absurd (failed (ap at (sym f) ∙ e))
    by looping f = absurd (failed (ap at (sym f) ∙ e))
    by ended f = absurd (failed (ap at (sym f) ∙ e))

-- Whether the thread that starts the loop is in its wait.
in_wait : (s : Starting) → (s ≡ entering) ⊎ (s ≢ entering)
in_wait uncalled = inr (λ e. cc)
in_wait entering = inl refl
in_wait passed = inr (λ e. cc)
in_wait (returned b) = inr (λ e. cc)

own-IsHanded : (p : Pthread) {t u : EventLoopThread} → OwnStep p t u → IsHanded t → IsHanded u
own-IsHanded p (starts t u e) h =
    let (f, g) = start_loop_lem t u e in
    let free : IsFree t.condition = h.inside (λ k. entering_called (sym k ∙ h.uncalled_yet f)) in
    subst IsHanded g (record {
      alone = h.alone;
      inside = λ n. free;
      sleeps = h.sleeps;
      there = λ k. absurd cc;
      only = λ k. absurd (unstarted_looping (sym f ∙ h.only k));
      called = λ n k. cc;
      uncalled_yet = λ k. absurd cc;
    })
  where
    unstarted_looping : unstarted ≡ looping → ⊥
    unstarted_looping k = cc
own-IsHanded p (enters t e free) h =
    wait_loop-IsHanded t e free h.there h.only (λ f. entering_called (sym e ∙ h.uncalled_yet f))
own-IsHanded p (resumes t o) h = elim (in_wait t.starting) [
  | inr n ↦ absurd (omega (arith, h.inside n, o))
  | inl e ↦
      unfold resume in
      wait_loop-IsHanded (resumed t) e (omega (arith, h.alone, o)) h.there h.only
        (λ f. entering_called (sym e ∙ h.uncalled_yet f))
]
own-IsHanded p (returns t e) h =
    unfold return_loop in
    record {
      alone = h.alone;
      inside = λ n. h.inside (λ k. passed_entering (sym e ∙ k));
      sleeps = h.sleeps;
      there = h.there;
      only = h.only;
      called = λ n k. cc;
      uncalled_yet = λ k. absurd (passed_uncalled (sym e ∙ h.uncalled_yet k));
    }
  where
    passed_entering : passed ≡ entering → ⊥
    passed_entering k = cc

    passed_uncalled : passed ≡ uncalled → ⊥
    passed_uncalled k = cc
own-IsHanded p (publishes t e) h =
    unfold publish_loop notify in
    record {
      alone = omega (arith, h.alone, p.signal_keeps t.condition);
      inside = λ n. omega (arith, h.inside n, p.signal_keeps t.condition);
      sleeps = λ w.
          absurd
            (omega (arith, w, h.alone, p.signal_keeps t.condition, p.signal_wakes t.condition));
      there = λ k. refl;
      only = λ k. refl;
      called = λ n. h.called (λ k. preparing_unstarted (sym e ∙ k));
      uncalled_yet = λ k. absurd cc;
    }
  where
    preparing_unstarted : preparing ≡ unstarted → ⊥
    preparing_unstarted k = cc
own-IsHanded p (ends t e) h =
    unfold end_thread in
    record {
      alone = h.alone;
      inside = h.inside;
      sleeps = λ w. refl;
      there = λ k. absurd cc;
      only = λ k. absurd cc;
      called = λ n. h.called (λ k. looping_unstarted (sym e ∙ k));
      uncalled_yet = λ k. absurd cc;
    }
  where
    looping_unstarted : looping ≡ unstarted → ⊥
    looping_unstarted k = cc

step-IsHanded : (p : Pthread) {t u : EventLoopThread} → ThreadStep p t u → IsHanded t → IsHanded u
step-IsHanded p (acts s) h = own-IsHanded p s h
step-IsHanded p (wakes t o) h =
    unfold wake_spuriously in
    record {
      alone = omega (arith, h.alone, o);
      inside = λ n. absurd (omega (arith, h.inside n, o));
      sleeps = λ w. h.sleeps o;
      there = h.there;
      only = h.only;
      called = h.called;
      uncalled_yet = h.uncalled_yet;
    }

pub data Run (p : Pthread) : EventLoopThread → EventLoopThread → Type 0 where
  rests : (t : EventLoopThread) → Run p t t
  goes_on : {t u v : EventLoopThread} → ThreadStep p t u → Run p u v → Run p t v

run-IsHanded : (p : Pthread) {t u : EventLoopThread} → IsHanded t → Run p t u → IsHanded u
run-IsHanded p h (rests t) = h
run-IsHanded p h (goes_on s r) = run-IsHanded p (step-IsHanded p s h) r

create-IsHanded : IsHanded create
unfolding create
create-IsHanded = record {
  alone = omega arith;
  inside = λ n. refl;
  sleeps = λ w. refl;
  there = λ k. absurd cc;
  only = λ k. absurd cc;
  called = λ n. absurd (n refl);
  uncalled_yet = λ k. refl;
}

wait_loop_passes :
    (t : EventLoopThread) → t.loop ≡ true → wait_loop t ≡ record t { starting = passed }
unfolding wait_loop
wait_loop_passes t l = rw l refl

-- Steps of the two threads only, without a wakeup that nobody asked for.
pub data OwnRun (p : Pthread) : EventLoopThread → EventLoopThread → Type 0 where
  stays : (t : EventLoopThread) → OwnRun p t t
  follows : {t u v : EventLoopThread} → OwnStep p t u → OwnRun p u v → OwnRun p t v

-- What is left to do after a pass that found the loop.
pass_loop :
    (p : Pthread) (t u : EventLoopThread)
    → u.loop ≡ true
    → OwnStep p t (wait_loop u)
    → (v : EventLoopThread) × OwnRun p t v × (v.starting ≡ returned true)
pass_loop p t u l s =
    let m : EventLoopThread = record u { starting = passed } in
    (
      return_loop m,
      follows (subst (OwnStep p t) (wait_loop_passes u l) s)
          (follows (returns m refl) (stays (return_loop m))),
      unfold return_loop in ap returned l,
    )

from_loop :
    (p : Pthread) (t : EventLoopThread)
    → IsHanded t
    → t.thread ≡ looping
    → t.starting ≡ entering
    → (u : EventLoopThread) × OwnRun p t u × (u.starting ≡ returned true)
from_loop p t h e s = elim (Bool-cases (ltb 0 t.condition.woken)) [
  | inl w ↦ pass_loop p t (resumed t) (h.there e) (resumes t (ground (arith, w)))
  | inr w ↦ pass_loop p t t (h.there e) (enters t s (none_waits (ground (arith, w))))
]
  where
    asleep : 0 < t.condition.waiting → ⊥
    asleep w = not_both (sym (h.there e) ∙ h.sleeps w)

    none_waits : t.condition.woken ≡ 0 → IsFree t.condition
    none_waits w = elim (Bool-cases (ltb 0 t.condition.waiting)) [
      | inl k ↦ absurd (asleep (ground (arith, k)))
      | inr k ↦ ground (arith, k, w)
    ]

-- Any steps of a new thread, the call of `startLoop` and wakeups without a notification, up to where
-- the loop is being made or runs and `startLoop` has not got past its wait: the two threads can then go on
-- by steps of their own, without such a wakeup, so that it returns the loop.
pub start_loop-Returns :
    (p : Pthread) {t : EventLoopThread}
    → Run p create t
    → (t.thread ≡ preparing) ⊎ (t.thread ≡ looping)
    → t.starting ≡ entering
    → (u : EventLoopThread) × OwnRun p t u × (u.starting ≡ returned true)
start_loop-Returns p {t = t} r (inl e) s =
    let h = run-IsHanded p create-IsHanded r in
    let (u, q, f) =
      from_loop p (publish_loop p t) (own-IsHanded p (publishes t e) h)
        (unfold publish_loop in refl) (unfold publish_loop in s) in
    (u, follows (publishes t e) q, f)
start_loop-Returns p {t = t} r (inr e) s = from_loop p t (run-IsHanded p create-IsHanded r) e s
