-- ===== src/EventLoop/Dispatch.antt =====
-- net/event_loop.cc: the active channels of a round, and the guard of `removeChannel` meanwhile. A channel
-- is known by its address; which channels a handler removes is an argument.
use ccnet.Prelude.{ℕ, ◌≡◌, Bool, true, false, not, ◌||◌, Option, none, some, List, [], ◌∷◌, ◌==◌}
use ccnet.Prelude.Outcome.{Outcome, ok, ◌>>=◌, ◌>>◌, assert}

-- What happened to the channels, the latest first.
pub data Action : Type 0 where
  handled : ℕ → Action
  removed : ℕ → Action

pub record Round : Type 0 where
  pub event_handling : Bool
  pub current_active_channel : Option ℕ
  pub active_channels : List ℕ
  pub actions : List Action

unfoldable pub contains : ℕ → List ℕ → Bool
contains c [] = false
contains c (d ∷ ds) = (d == c) || contains c ds

abbrev pub is_current : ℕ → Option ℕ → Bool
is_current c none = false
is_current c (some d) = d == c

unfoldable pub remove_channel : ℕ → Round → Outcome Round
remove_channel c r = do
  assert (
      not r.event_handling
      || is_current c r.current_active_channel
      || not (contains c r.active_channels))
  ok (record r { actions = removed c ∷ r.actions })

-- The channels that a handler removes.
unfoldable pub remove_each : List ℕ → Round → Outcome Round
remove_each [] r = ok r
remove_each (c ∷ cs) r = remove_channel c r >>= λ s. remove_each cs s

-- `currentActiveChannel_->handleEvent`.
unfoldable pub handle_event : (ℕ → List ℕ) → ℕ → Round → Outcome Round
handle_event removes c r =
    remove_each (removes c)
      (record r { current_active_channel = some c; actions = handled c ∷ r.actions })

unfoldable pub handle_each : (ℕ → List ℕ) → List ℕ → Round → Outcome Round
handle_each removes [] r = ok r
handle_each removes (c ∷ cs) r = handle_event removes c r >>= λ s. handle_each removes cs s

abbrev pub begin_round : List ℕ → Round
begin_round active = record {
  event_handling = true;
  current_active_channel = none;
  active_channels = active;
  actions = [];
}

-- The channels that `poll` returned are handled.
unfoldable pub handle_active : (ℕ → List ℕ) → List ℕ → Outcome (List Action)
handle_active removes active = handle_each removes active (begin_round active) >>= λ r. ok r.actions

-- No channel of the list occurs twice.
abbrev pub AreDistinct : List ℕ → Type 0
AreDistinct [] = Unit
AreDistinct (c ∷ cs) = (contains c cs ≡ false) × AreDistinct cs

unfoldable pub is_removed : ℕ → List Action → Bool
is_removed c [] = false
is_removed c (handled d ∷ xs) = is_removed c xs
is_removed c (removed d ∷ xs) = (d == c) || is_removed c xs

-- Each channel was not removed before it was handled.
unfoldable pub IsSafe : List Action → Type 0
IsSafe [] = Unit
IsSafe (handled c ∷ xs) = (is_removed c xs ≡ false) × IsSafe xs
IsSafe (removed c ∷ xs) = IsSafe xs
