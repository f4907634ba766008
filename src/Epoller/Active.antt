-- ===== src/Epoller/Active.antt =====
-- net/epoller.cc: `fillActiveChannels` and the channels that `epoll_wait` reports.
use ccnet.Prelude.{
  ℕ, ◌≡◌, refl, ap, subst, ◌∙◌, Option, none, some, List, [], ◌∷◌, map, arith, ◌==◌, if◌then◌else◌,
  ==_refl,
}
use ccnet.Prelude.Outcome.{ok}
use ccnet.Prelude.Maps.{put, put_at, put_other}
use native.Mathlib.Decide.{ℕ_discrete}
use ccnet.Channel.{Channel, Flags, Interest, Index, is_new, is_added, is_deleted}
use ccnet.Epoller.{
  Kernel, EPollPoller, EpollEvent, fill_active_channels, is_free, has_channel, holds,
}
use ccnet.Epoller.Invariant.{IsConsistent, Slot}

-- What `epoll_wait` has reported of a channel, and what stood there before where it has not.
pub last_report : List (Flags × ℕ) → ℕ → Flags → Flags
last_report [] c old = old
last_report ((revents, d) ∷ es) c old = last_report es c (if c == d then revents else old)

module _ (k : Kernel) where
  open k use {interest}

  -- Each report is of a channel that the kernel watches.
  abbrev pub IsReported : EPollPoller k → List (Flags × ℕ) → Type 0
  IsReported p [] = Unit {0}
  IsReported p ((revents, c) ∷ es) =
      ((i : Interest) × (interest p.table (p.heap c).fd ≡ some (record { events = i; ptr = c })))
      × IsReported p es

  -- The active channels are those reported, in this order, each with the flags last reported of it.
  pub record Fills (p : EPollPoller k) (es : List (Flags × ℕ)) : Type 0 where
    pub result : EPollPoller k
    pub returns : fill_active_channels k p es ≡ ok (map (λ (e : Flags × ℕ). e.1) es, result)
    pub reported : (c : ℕ) → (result.heap c).revents ≡ last_report es c (p.heap c).revents
    pub same : (c : ℕ) → (result.heap c).events ≡ (p.heap c).events

  ptr_of :
      (p : EPollPoller k) (c d : ℕ) (e : EpollEvent) (i : Index)
      → Slot d (p.heap d).events i (some d) (interest p.table (p.heap c).fd)
      → interest p.table (p.heap c).fd ≡ some e
      → d ≡ e.ptr
  ptr_of p c d e is_new s w = absurd (s.0 refl)
  ptr_of p c d e is_deleted s w = absurd (let n = s.1 in cc)
  ptr_of p c d e is_added s w = let n = s.1 in ground (arith, w)

  -- A channel that the kernel watches is in the map.
  watched_held :
      (p : EPollPoller k) (c : ℕ) (i : Interest)
      → IsConsistent k p
      → interest p.table (p.heap c).fd ≡ some (record { events = i; ptr = c })
      → (o : Option ℕ) → p.channels (p.heap c).fd ≡ o
      → p.channels (p.heap c).fd ≡ some c
  watched_held p c i v w none h = absurd (let n = v.unknown (p.heap c).fd h in cc)
  watched_held p c i v w (some d) h =
      h
      ∙ ap some (
          ptr_of p c d _ (p.heap d).index
            (subst
              (λ o. Slot d (p.heap d).events (p.heap d).index o (interest p.table (p.heap c).fd)) h
              (subst
                (λ x. Slot d (p.heap d).events (p.heap d).index (p.channels x) (interest p.table x))
                (v.known (p.heap c).fd d h) (v.slots d)))
            w)

  abbrev AllHeld : EPollPoller k → List (Flags × ℕ) → Type 0
  AllHeld p [] = Unit {0}
  AllHeld p ((revents, c) ∷ es) = (p.channels (p.heap c).fd ≡ some c) × AllHeld p es

  all_held :
      (p : EPollPoller k) (es : List (Flags × ℕ))
      → IsConsistent k p
      → IsReported p es
      → AllHeld p es
  all_held p [] v r = tt
  all_held p ((revents, c) ∷ es) v ((i, w), r) = (watched_held p c i v w _ refl, all_held p es v r)

  abbrev flagged : EPollPoller k → ℕ → Flags → EPollPoller k
  flagged p c revents = record p { heap = put p.heap c (record (p.heap c) { revents = revents }) }

  -- Setting the flags of a channel leaves the rest of every channel.
  flagged_keeps :
      {A : Type 0} (get : Channel → A) (p : EPollPoller k) (c : ℕ) (revents : Flags)
      → get (record (p.heap c) { revents = revents }) ≡ get (p.heap c)
      → (d : ℕ) → get ((flagged p c revents).heap d) ≡ get (p.heap d)
  flagged_keeps get p c revents same d = elim (ℕ_discrete d c) [
    | yes e ↦ rw (e, put_at p.heap c (record (p.heap c) { revents = revents })) same
    | no ne ↦ ap get (put_other p.heap c (record (p.heap c) { revents = revents }) d ne)
  ]

  flagged_held :
      (p : EPollPoller k) (c : ℕ) (revents : Flags) (es : List (Flags × ℕ))
      → AllHeld p es
      → AllHeld (flagged p c revents) es
  flagged_held p c revents [] h = tt
  flagged_held p c revents ((_, d) ∷ es) (h, hs) = (
    ap p.channels (flagged_keeps (λ ch. ch.fd) p c revents refl d) ∙ h,
    flagged_held p c revents es hs,
  )

  flags_now :
      (p : EPollPoller k) (c : ℕ) (revents : Flags) (d : ℕ)
      → ((flagged p c revents).heap d).revents ≡ (if d == c then revents else (p.heap d).revents)
  flags_now p c revents d = unfold put in ground arith

  fill_held : (es : List (Flags × ℕ)) (p : EPollPoller k) → AllHeld p es → Fills p es
  unfolding fill_active_channels is_free has_channel holds last_report
  fill_held [] p h = record { result = p; returns = refl; reported = λ c. refl; same = λ c. refl }
  fill_held ((revents, c) ∷ es) p (h, hs) =
      let rest : Fills (flagged p c revents) es =
        fill_held es (flagged p c revents) (flagged_held p c revents es hs) in
      record {
        result = rest.result;
        returns = rw (h, ==_refl c, rest.returns) refl;
        reported = λ d. rest.reported d ∙ ap (last_report es d) (flags_now p c revents d);
        same = λ d. rest.same d ∙ flagged_keeps (λ ch. ch.events) p c revents refl d;
      }

  -- On a consistent state, reports of watched channels fail no assertion, and make those channels
  -- active in order, each with the flags that were reported last.
  pub fill-Fills :
      (es : List (Flags × ℕ)) (p : EPollPoller k) → IsConsistent k p → IsReported p es → Fills p es
  fill-Fills es p v r = fill_held es p (all_held p es v r)
