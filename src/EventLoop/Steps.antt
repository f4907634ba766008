-- ===== src/EventLoop/Steps.antt =====
-- net/event_loop.cc: the steps of the loop's thread and of others, and the wakeups that are there.
use ccnet.Prelude.{
  ℕ, ◌+◌, ◌<◌, ◌≡◌, refl, sym, ap, ◌∙◌, ◌≢◌, subst, true, false, inl, inr, List, [], ◌∷◌, arith,
  Bool-cases, length,
}
use ccnet.EventLoop.{
  true, EventLoop, Phase, stopped, testing, polling, handling, calling, wakeup, push, queue_in_loop,
  queue_elsewhere, wakeup_elsewhere, handle_read, take_pending, call_next, begin_loop, test_quit,
  quit_in_loop, quit_elsewhere,
}
use ccnet.Prelude.Outcome.{Outcome, ok, assert_failed, value_or}

-- The loop's thread runs a functor or the callback of a channel.
abbrev pub IsRunning : Phase → Type 0
IsRunning stopped = ⊥
IsRunning testing = ⊥
IsRunning polling = ⊥
IsRunning handling = Unit
IsRunning calling = Unit

infix 40 ◌⟶◌
-- A step of the loop's thread or of another. The loop runs a functor or a channel's callback when it
-- queues a functor or quits itself; `poll` may return at any time.
pub data ◌⟶◌ : EventLoop → EventLoop → Type 0 where
  begins : (l m : EventLoop) → begin_loop l ≡ ok m → l ⟶ m
  tests : (l : EventLoop) → l.phase ≡ testing → l ⟶ test_quit l
  quits : (l : EventLoop) → IsRunning l.phase → l ⟶ quit_in_loop l
  quits_elsewhere : (l : EventLoop) → l ⟶ quit_elsewhere l
  queues : (l : EventLoop) (f : ℕ) → IsRunning l.phase → l ⟶ queue_in_loop f l
  queues_elsewhere : (l : EventLoop) (f : ℕ) → l ⟶ queue_elsewhere f l
  wakes : (l : EventLoop) → 0 < l.in_flight → l ⟶ wakeup_elsewhere l
  returns : (l : EventLoop) → l.phase ≡ polling → l ⟶ record l { phase = handling }
  reads : (l : EventLoop) → l.phase ≡ handling → l ⟶ handle_read l
  takes : (l : EventLoop) → l.phase ≡ handling → l ⟶ take_pending l
  calls :
      (l : EventLoop) (f : ℕ) (fs : List ℕ)
      → l.phase ≡ calling
      → l.functors ≡ f ∷ fs
      → l ⟶ call_next f fs l
  sleeps : (l : EventLoop) → l.phase ≡ calling → l.functors ≡ [] → l ⟶ record l { phase = testing }

-- Where the loop does not get to the pending functors or to its test by itself, a wakeup is there or on
-- its way.
pub record IsAwake (l : EventLoop) : Type 0 where
  pub woken : l.phase ≢ handling → 0 < length l.pending_functors → 0 < l.wakeup_count + l.in_flight
  pub none_left : l.phase ≢ calling → l.functors ≡ []
  pub quits_awake : l.phase ≡ polling → l.quit ≡ true → 0 < l.wakeup_count + l.in_flight

pub begin_lem :
    (l m : EventLoop)
    → begin_loop l ≡ ok m
    → (l.phase ≡ stopped) × (record l { phase = testing; quit = false } ≡ m)
unfolding begin_loop
begin_lem l m e = by l.phase refl
  where
    no_begin : assert_failed ≡ ok m → ⊥
    no_begin f = cc

    open_loop : EventLoop → Phase → Outcome EventLoop
    open_loop l t = begin_loop (record l { phase = t })

    by :
        (t : Phase)
        → l.phase ≡ t
        → (l.phase ≡ stopped) × (record l { phase = testing; quit = false } ≡ m)
    by stopped f = (f, ap (value_or l) (ap (open_loop l) (sym f) ∙ e))
    by testing f = absurd (no_begin (ap (open_loop l) (sym f) ∙ e))
    by polling f = absurd (no_begin (ap (open_loop l) (sym f) ∙ e))
    by handling f = absurd (no_begin (ap (open_loop l) (sym f) ∙ e))
    by calling f = absurd (no_begin (ap (open_loop l) (sym f) ∙ e))

queued-IsAwake :
    (l : EventLoop) (f : ℕ) → IsRunning l.phase → IsAwake l → IsAwake (queue_in_loop f l)
queued-IsAwake l f s v = by l.phase refl s
  where
    by : (t : Phase) → l.phase ≡ t → IsRunning t → IsAwake (queue_in_loop f l)
    by stopped e s = absurd s
    by testing e s = absurd s
    by polling e s = absurd s
    by handling e s =
        unfold queue_in_loop push wakeup in
        simp e (record {
          woken = λ p n. absurd (p refl);
          none_left = λ p. v.none_left (λ c. cc);
          quits_awake = λ p q. absurd cc;
        })
    by calling e s =
        unfold queue_in_loop push wakeup in
        simp e (record {
          woken = λ p n. omega arith;
          none_left = λ p. absurd (p refl);
          quits_awake = λ p q. absurd cc;
        })

pub step-IsAwake : {l m : EventLoop} → l ⟶ m → IsAwake l → IsAwake m
step-IsAwake (begins l m e) v =
    let (f, g) = begin_lem l m e in
    subst IsAwake g (record {
      woken = λ p n. v.woken (λ c. cc) n;
      none_left = λ p. v.none_left (λ c. cc);
      quits_awake = λ p q. absurd cc;
    })
step-IsAwake (tests l e) v =
    unfold test_quit in
    elim (Bool-cases l.quit) [
      | inl q ↦ simp q (record {
        woken = λ p n. v.woken (λ c. cc) n;
        none_left = λ p. v.none_left (λ c. cc);
        quits_awake = λ p h. absurd cc;
      })
      | inr q ↦ simp q (record {
        woken = λ p n. v.woken (λ c. cc) n;
        none_left = λ p. v.none_left (λ c. cc);
        quits_awake = λ p h. absurd cc;
      })
    ]
step-IsAwake (quits l s) v = by l.phase refl s
  where
    by : (t : Phase) → l.phase ≡ t → IsRunning t → IsAwake (quit_in_loop l)
    by stopped e s = absurd s
    by testing e s = absurd s
    by polling e s = absurd s
    by handling e s =
        unfold quit_in_loop in
        record { woken = v.woken; none_left = v.none_left; quits_awake = λ p q. absurd cc }
    by calling e s =
        unfold quit_in_loop in
        record { woken = v.woken; none_left = v.none_left; quits_awake = λ p q. absurd cc }
step-IsAwake (quits_elsewhere l) v =
    unfold quit_elsewhere in
    record { woken = λ p n. omega arith; none_left = v.none_left; quits_awake = λ p q. omega arith }
step-IsAwake (queues l f s) v = queued-IsAwake l f s v
step-IsAwake (queues_elsewhere l f) v =
    unfold queue_elsewhere push in
    record { woken = λ p n. omega arith; none_left = v.none_left; quits_awake = λ p q. omega arith }
step-IsAwake (wakes l one) v =
    unfold wakeup_elsewhere wakeup in
    record { woken = λ p n. omega arith; none_left = v.none_left; quits_awake = λ p q. omega arith }
step-IsAwake (returns l e) v = record {
  woken = λ p n. absurd (p refl);
  none_left = λ p. v.none_left (λ c. cc);
  quits_awake = λ p q. absurd cc;
}
step-IsAwake (reads l e) v =
    unfold handle_read in
    record { woken = λ p n. absurd (p e); none_left = v.none_left; quits_awake = λ p q. absurd cc }
step-IsAwake (takes l e) v =
    unfold take_pending in
    record {
      woken = λ p n. absurd (omega arith);
      none_left = λ p. absurd (p refl);
      quits_awake = λ p q. absurd cc;
    }
step-IsAwake (calls l f fs e s) v =
    unfold call_next in
    record { woken = v.woken; none_left = λ p. absurd (p e); quits_awake = v.quits_awake }
step-IsAwake (sleeps l e s) v = record {
  woken = λ p n. v.woken (λ c. cc) n;
  none_left = λ p. s;
  quits_awake = λ p q. absurd cc;
}
