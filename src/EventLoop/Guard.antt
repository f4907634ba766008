-- ===== src/EventLoop/Guard.antt =====
-- net/event_loop.cc: the channels that are handled in a round while others are removed.
use ccnet.Prelude.{
  ℕ, ◌≡◌, refl, sym, ap, ◌∙◌, inl, inr, true, false, not, ◌||◌, some, List, [], ◌∷◌, arith, ◌==◌,
  ==_iff, Bool-cases,
}
use ccnet.Prelude.Outcome.{Outcome, ok, assert_failed, length_error, ◌>>=◌}
use ccnet.EventLoop.Dispatch.{
  handled, removed, Action, Round, contains, is_current, remove_channel, remove_each, handle_event,
  handle_each, begin_round, handle_active, AreDistinct, is_removed, IsSafe,
}

-- In the middle of a round: the channels `cs` are still to come, and none of them was removed.
record IsGoing (cs : List ℕ) (r : Round) : Type 0 where
  handling : r.event_handling ≡ true
  safe : IsSafe r.actions
  coming : (c : ℕ) → contains c cs ≡ true → is_removed c r.actions ≡ false
  active : (c : ℕ) → contains c cs ≡ true → contains c r.active_channels ≡ true

-- The same after a call that returns.
abbrev Going : List ℕ → ℕ → Outcome Round → Type 0
Going cs d (ok r) = IsGoing cs r × (r.current_active_channel ≡ some d)
Going cs d assert_failed = Unit
Going cs d length_error = Unit

not_coming :
    (cs : List ℕ) (d c : ℕ) (r : Round)
    → contains d cs ≡ false
    → IsGoing cs r
    → r.current_active_channel ≡ some d
    → not r.event_handling
        || is_current c r.current_active_channel
        || not (contains c r.active_channels)
      ≡ true
    → contains c cs ≡ false
not_coming cs d c r n h e a = elim (Bool-cases (contains c cs)) [
  | inr k ↦ k
  | inl k ↦ elim (Bool-cases (d == c)) [
    | inl f ↦ absurd (not_both (sym k ∙ ap (λ i. contains i cs) (sym ((==_iff d c).0 f)) ∙ n))
    | inr f ↦ absurd (not_both (sym (simp (h.handling, e, f, h.active c k) at a)))
  ]
]
  where
    not_both : true ≡ false → ⊥
    not_both b = cc

other_not_removed :
    (c x : ℕ) (cs : List ℕ) → contains x cs ≡ true → contains c cs ≡ false → (c == x) ≡ false
other_not_removed c x cs i o = elim (Bool-cases (c == x)) [
  | inr f ↦ f
  | inl f ↦ absurd (not_both (sym i ∙ ap (λ y. contains y cs) (sym ((==_iff c x).0 f)) ∙ o))
]
  where
    not_both : true ≡ false → ⊥
    not_both b = cc

remove_channel-Going :
    (cs : List ℕ) (d c : ℕ) (r : Round)
    → contains d cs ≡ false
    → IsGoing cs r
    → r.current_active_channel ≡ some d
    → Going cs d (remove_channel c r)
unfolding remove_channel
remove_channel-Going cs d c r n h e =
    elim (Bool-cases (
      not r.event_handling
      || is_current c r.current_active_channel
      || not (contains c r.active_channels))) [
        | inr a ↦ simp a tt
        | inl a ↦ simp a (
          record {
            handling = h.handling;
            safe = unfold IsSafe in h.safe;
            coming = λ x i.
                unfold is_removed in
                simp (other_not_removed c x cs i (not_coming cs d c r n h e a)) (h.coming x i);
            active = h.active;
          },
          e,
        )
      ]

-- What follows a call that returns.
going_on :
    (cs : List ℕ) (d : ℕ) (P : Outcome Round → Type 0) (k : Round → Outcome Round)
    → P assert_failed
    → P length_error
    → ((s : Round) → IsGoing cs s → s.current_active_channel ≡ some d → P (k s))
    → (o : Outcome Round) → Going cs d o
    → P (o >>= k)
going_on cs d P k f g next (ok s) (i, e) = next s i e
going_on cs d P k f g next assert_failed i = f
going_on cs d P k f g next length_error i = g

remove_each-Going :
    (cs : List ℕ) (d : ℕ) (ks : List ℕ) (r : Round)
    → contains d cs ≡ false
    → IsGoing cs r
    → r.current_active_channel ≡ some d
    → Going cs d (remove_each ks r)
unfolding remove_each
remove_each-Going cs d [] r n h e = (h, e)
remove_each-Going cs d (k ∷ ks) r n h e =
    going_on cs d (Going cs d) (remove_each ks) tt tt (λ s i f. remove_each-Going cs d ks s n i f)
      (remove_channel k r) (remove_channel-Going cs d k r n h e)

-- The rounds of the loop: what comes is not removed before, so that all that is handled was not.
abbrev IsEnd : Outcome Round → Type 0
IsEnd (ok r) = IsSafe r.actions
IsEnd assert_failed = Unit
IsEnd length_error = Unit

handle_each-IsEnd :
    (removes : ℕ → List ℕ) (cs : List ℕ) (r : Round)
    → AreDistinct cs
    → IsGoing cs r
    → IsEnd (handle_each removes cs r)
unfolding handle_each handle_event
handle_each-IsEnd removes [] r u h = h.safe
handle_each-IsEnd removes (c ∷ cs) r (n, u) h =
    going_on cs c IsEnd (handle_each removes cs) tt tt (λ s i f. handle_each-IsEnd removes cs s u i)
      _ (remove_each-Going cs c (removes c) _ n start refl)
  where
    start :
        IsGoing cs (record r { current_active_channel = some c; actions = handled c ∷ r.actions })
    start = record {
      handling = h.handling;
      safe = unfold IsSafe in (h.coming c (unfold contains in ground arith), h.safe);
      coming = λ x i. unfold is_removed in h.coming x (unfold contains in ground (arith, i));
      active = λ x i. h.active x (unfold contains in ground (arith, i));
    }

-- The actions of a round, where no assertion fails.
unfoldable pub AllSafe : Outcome (List Action) → Type 0
AllSafe (ok xs) = IsSafe xs
AllSafe assert_failed = Unit
AllSafe length_error = Unit

-- The invariant of a round at its end.
handle_active-Safe :
    (removes : ℕ → List ℕ) (active : List ℕ)
    → AreDistinct active
    → AllSafe (handle_active removes active)
unfolding handle_active AllSafe
handle_active-Safe removes active u =
    ends _ (handle_each-IsEnd removes active (begin_round active) u begun-IsGoing)
  where
    begun-IsGoing : IsGoing active (begin_round active)
    begun-IsGoing = record {
      handling = refl;
      safe = unfold IsSafe in tt;
      coming = λ c i. unfold is_removed in refl;
      active = λ c i. i;
    }

    ends : (o : Outcome Round) → IsEnd o → AllSafe (o >>= λ r. ok r.actions)
    ends (ok r) h = h
    ends assert_failed h = tt
    ends length_error h = tt

-- A handler removes its own channel, or channels that are not active.
abbrev pub IsCareful : (ℕ → List ℕ) → List ℕ → Type 0
IsCareful removes active =
    (c k : ℕ) → contains k (removes c) ≡ true → (c == k) || not (contains k active) ≡ true

remove_each-returns :
    (c : ℕ) (ks : List ℕ) (r : Round)
    → r.current_active_channel ≡ some c
    → ((k : ℕ) → contains k ks ≡ true → (c == k) || not (contains k r.active_channels) ≡ true)
    → (s : Round) × (remove_each ks r ≡ ok s) × (s.active_channels ≡ r.active_channels)
unfolding remove_each remove_channel
remove_each-returns c [] r e f = (r, refl, refl)
remove_each-returns c (k ∷ ks) r e f =
    let (s, g, i) =
      remove_each-returns c ks (record r { actions = removed k ∷ r.actions }) e
        (λ x m. f x (later x m)) in
    (s, simp guard g, i)
  where
    later : (x : ℕ) → contains x ks ≡ true → contains x (k ∷ ks) ≡ true
    later x m = unfold contains in ground (arith, m)

    here : contains k (k ∷ ks) ≡ true
    here = unfold contains in ground arith

    guard :
        not r.event_handling
          || is_current k r.current_active_channel
          || not (contains k r.active_channels)
        ≡ true
    guard = elim (Bool-cases r.event_handling) [
      | inl h ↦ simp (h, e) (f k here)
      | inr h ↦ simp h refl
    ]

handle_each-returns :
    (removes : ℕ → List ℕ) (active cs : List ℕ) (r : Round)
    → r.active_channels ≡ active
    → IsCareful removes active
    → (s : Round) × (handle_each removes cs r ≡ ok s)
unfolding handle_each handle_event
handle_each-returns removes active [] r e f = (r, refl)
handle_each-returns removes active (c ∷ cs) r e f =
    let (s, g, i) =
      remove_each-returns c (removes c)
        (record r { current_active_channel = some c; actions = handled c ∷ r.actions }) refl
        (λ k m. ap (λ xs. (c == k) || not (contains k xs)) e ∙ f c k m) in
    let (t, h) = handle_each-returns removes active cs s (i ∙ e) f in (t, simp g h)

-- Whatever channels the handlers of a round of distinct active channels remove: an assertion fails, or
-- no channel is handled after it was removed. No assertion fails where each handler removes its own
-- channel or channels that are not active.
pub handle_active-guarded :
    (removes : ℕ → List ℕ) (active : List ℕ)
    → AreDistinct active
    → AllSafe (handle_active removes active)
      × (IsCareful removes active → (xs : List Action) × (handle_active removes active ≡ ok xs))
handle_active-guarded removes active u = (handle_active-Safe removes active u, returns)
  where
    returns : IsCareful removes active → (xs : List Action) × (handle_active removes active ≡ ok xs)
    returns f =
        let (s, e) = handle_each-returns removes active active (begin_round active) refl f in
        (s.actions, unfold handle_active in simp e refl)
