-- ===== src/Connector/Runs.antt =====
-- net/connector.cc: the calls of a connector in any order.
use ccnet.Prelude.{
  ℕ, ◌+◌, ◌≡◌, refl, sym, ap, ap₂, ◌∙◌, inl, inr, Bool, true, false, List, [], ◌∷◌, arith, ltb,
  if◌then◌else◌,
}
use ccnet.Prelude.Outcome.{Outcome, ok, ◌>>=◌}
use ccnet.Connector.{
  Connector, is_connecting, start_task, stop_task, queue, start_in_loop, start, restart,
  reset_channel, stop, stop_in_loop, handle_write, handle_error, create,
}
use ccnet.Connector.Sound.{
  times, IsBounded, AllBounded, IsSound, Sound, idle_by, AllBounded-append, start_in_loop-Sound,
}
use ccnet.Connector.Sockets.{stop_in_loop-Sound, handle_error-Sound, handle_write-Sound}

-- The calls, with what the system answers.
pub data Event : Type 0 where
  starts : Bool → ℕ → Event
  starts_in_loop : ℕ → Event
  restarts : ℕ → Event
  stops : Event
  stops_in_loop : Event
  resets : Event
  writes : ℕ → Bool → Event
  errors : Event

unfoldable pub step : Connector → Event → Outcome Connector
step c (starts in_loop e) = start in_loop e c
step c (starts_in_loop e) = start_in_loop e c
step c (restarts e) = restart e c
step c stops = ok (stop c)
step c stops_in_loop = stop_in_loop c
step c resets = ok (reset_channel c)
step c (writes err self_connect) = handle_write err self_connect c
step c errors = handle_error c

-- `restart` and the reset of the channel are not called during an attempt.
abbrev pub IsDue : Connector → Event → Type 0
IsDue c (starts in_loop e) = Unit {0}
IsDue c (starts_in_loop e) = Unit {0}
IsDue c (restarts e) = is_connecting c.state ≡ false
IsDue c stops = Unit {0}
IsDue c stops_in_loop = Unit {0}
IsDue c resets = is_connecting c.state ≡ false
IsDue c (writes err self_connect) = Unit {0}
IsDue c errors = Unit {0}

unattempted :
    (c d : Connector)
    → IsSound c
    → is_connecting c.state ≡ false
    → is_connecting d.state ≡ false
    → d.closed ≡ c.closed
    → d.handed ≡ c.handed
    → d.created ≡ c.created
    → IsBounded d.retry_delay_ms
    → AllBounded d.tasks
    → IsSound d
unattempted c d h e f p q r b ts = record {
  once = λ x.
      ap₂ (λ a b. a + b) (ap₂ (λ xs ys. times x xs + times x ys) p q)
        (idle_by d.state d.channel x f ∙ sym (idle_by c.state c.channel x e))
      ∙ h.once x
      ∙ ap (λ n. if ltb x n then 1 else 0) (sym r);
  delay = b;
  delays = ts;
}

-- Every call either fails an assertion or leaves a sound connector.
pub step-Sound : (c : Connector) (e : Event) → IsSound c → IsDue c e → Sound (step c e)
unfolding step start restart stop queue reset_channel
step-Sound c (starts true e) h due =
    start_in_loop-Sound e _ (record { once = h.once; delay = h.delay; delays = h.delays })
step-Sound c (starts false e) h due = inr (
  _,
  refl,
  record {
    once = h.once;
    delay = h.delay;
    delays = AllBounded-append c.tasks start_task h.delays tt;
  },
)
step-Sound c (starts_in_loop e) h due = start_in_loop-Sound e c h
step-Sound c (restarts e) h due =
    start_in_loop-Sound e _
      (unattempted c _ h due refl refl refl refl (omega arith, omega arith) h.delays)
step-Sound c stops h due = inr (
  _,
  refl,
  record {
    once = h.once;
    delay = h.delay;
    delays = AllBounded-append c.tasks stop_task h.delays tt;
  },
)
step-Sound c stops_in_loop h due = stop_in_loop-Sound c h
step-Sound c resets h due = inr (_, refl, unattempted c _ h due due refl refl refl h.delay h.delays)
step-Sound c (writes err self_connect) h due = handle_write-Sound err self_connect c h
step-Sound c errors h due = handle_error-Sound c h

unfoldable pub run : Connector → List Event → Outcome Connector
run c [] = ok c
run c (e ∷ es) = step c e >>= λ d. run d es

-- No call of `restart` and no reset of the channel comes during an attempt.
abbrev pub AllDue : Connector → List Event → Type 0
AllDue c [] = Unit {0}
AllDue c (e ∷ es) = IsDue c e × ((d : Connector) → step c e ≡ ok d → AllDue d es)

-- From a sound connector, where no `restart` and no reset of the channel comes during an attempt, any
-- calls either fail an assertion or keep it sound: each socket is closed or handed over at most once, none is
-- lost, and each retry waits between half a second and 30 seconds.
pub run-Sound : (es : List Event) (c : Connector) → IsSound c → AllDue c es → Sound (run c es)
unfolding run
run-Sound [] c h due = inr (c, refl, h)
run-Sound (e ∷ es) c h (due, later) = elim (step-Sound c e h due) [
  | inl f ↦ inl (rw f refl)
  | inr (d, r, sound) ↦ rw r (run-Sound es d sound (later d r))
]

pub create-IsSound : IsSound create
unfolding create
create-IsSound = record {
  once = λ x. ground arith;
  delay = (omega arith, omega arith);
  delays = tt;
}
