-- ===== src/Epoller/Invariant.antt =====
-- net/epoller.cc: what ties the channels, the poller's map and the kernel's table to one another.
use ccnet.Prelude.{ℕ, ◌≡◌, sym, ap, ◌∙◌, ◌≢◌, Option, none, some}
use native.Mathlib.Decide.{ℕ_discrete}
use ccnet.Channel.{Interest, Index, is_new, is_added, is_deleted, none_event}
use ccnet.Epoller.{Kernel, EPollPoller, EpollEvent}

-- What the map and the table hold for the descriptor of the channel at `c`, by its index.
abbrev pub Slot : ℕ → Interest → Index → Option ℕ → Option EpollEvent → Type 0
Slot c events is_added held watched =
    (held ≡ some c) × (watched ≡ some (record { events = events; ptr = c }))
Slot c events is_deleted held watched = (held ≡ some c) × (watched ≡ none) × (events ≡ none_event)
Slot c events is_new held watched = (held ≢ some c) × (events ≡ none_event)

Slot-unheld :
    (d : ℕ) (events : Interest) (i : Index) (held new_held : Option ℕ)
    (watched new_watched : Option EpollEvent)
    → Slot d events i held watched
    → held ≢ some d
    → new_held ≢ some d
    → Slot d events i new_held new_watched
Slot-unheld d events is_added held new_held w nw s h h' = absurd (h s.0)
Slot-unheld d events is_deleted held new_held w nw s h h' = absurd (h s.0)
Slot-unheld d events is_new held new_held w nw s h h' = (h', s.1)

module _ (k : Kernel) where
  open k use {Table, interest, epoll_ctl, adds, modifies, deletes}

  -- The kernel watches exactly the channels whose index is `kAdded`, for the events that they ask
  -- for, and the map holds those and the ones whose index is `kDeleted`; the others ask for nothing.
  pub record IsConsistent (p : EPollPoller k) : Type 0 where
    pub slots :
        (c : ℕ)
        → Slot c
            (p.heap c).events
            (p.heap c).index
            (p.channels (p.heap c).fd)
            (interest p.table (p.heap c).fd)
    pub known : (fd c : ℕ) → p.channels fd ≡ some c → (p.heap c).fd ≡ fd
    pub unknown : (fd : ℕ) → p.channels fd ≡ none → interest p.table fd ≡ none

  -- A call on the channel `c` changes the channel, and the entries of its descriptor.
  pub record Changes (p q : EPollPoller k) (c : ℕ) : Type 0 where
    pub same_fd : (q.heap c).fd ≡ (p.heap c).fd
    pub other_channels : (d : ℕ) → d ≢ c → q.heap d ≡ p.heap d
    pub other_entries : (x : ℕ) → x ≢ (p.heap c).fd → q.channels x ≡ p.channels x
    pub other_interest : (x : ℕ) → x ≢ (p.heap c).fd → interest q.table x ≡ interest p.table x
    pub own : (d : ℕ) → q.channels (p.heap c).fd ≡ some d → d ≡ c
    pub vacant : q.channels (p.heap c).fd ≡ none → interest q.table (p.heap c).fd ≡ none
    pub slot :
        Slot c
          (q.heap c).events
          (q.heap c).index
          (q.channels (p.heap c).fd)
          (interest q.table (p.heap c).fd)

  module _ (p q : EPollPoller k) (c : ℕ) (v : IsConsistent p)
      (own : (d : ℕ) → p.channels (p.heap c).fd ≡ some d → d ≡ c) (g : Changes p q c) where
    other-Slot :
        (d : ℕ)
        → d ≢ c
        → Slot d
            (p.heap d).events
            (p.heap d).index
            (q.channels (p.heap d).fd)
            (interest q.table (p.heap d).fd)
    other-Slot d ne = elim (ℕ_discrete (p.heap d).fd (p.heap c).fd) [
      | yes same ↦
          Slot-unheld d _ (p.heap d).index _ _ _ _ (v.slots d)
            (λ e. ne (own d (ap p.channels (sym same) ∙ e)))
            (λ e. ne (g.own d (ap q.channels (sym same) ∙ e)))
      | no other ↦
          rw (g.other_entries (p.heap d).fd other, g.other_interest (p.heap d).fd other) (v.slots d)
    ]

    pub Changes-IsConsistent : IsConsistent q
    Changes-IsConsistent = record {
      slots = λ d. elim (ℕ_discrete d c) [
        | yes s ↦ rw (s, g.same_fd) g.slot
        | no ne ↦ rw (g.other_channels d ne) (other-Slot d ne)
      ];
      known = λ fd d e. elim (ℕ_discrete fd (p.heap c).fd) [
        | yes s ↦ rw (s, g.own d (ap q.channels (sym s) ∙ e)) g.same_fd
        | no ne ↦ elim (ℕ_discrete d c) [
          | yes s ↦ absurd (
              ne (sym (v.known fd d (sym (g.other_entries fd ne) ∙ e)) ∙ ap (λ d. (p.heap d).fd) s))
          | no other ↦
              rw (g.other_channels d other) (v.known fd d (sym (g.other_entries fd ne) ∙ e))
        ]
      ];
      unknown = λ fd e. elim (ℕ_discrete fd (p.heap c).fd) [
        | yes s ↦ rw s (g.vacant (ap q.channels (sym s) ∙ e))
        | no ne ↦ g.other_interest fd ne ∙ v.unknown fd (sym (g.other_entries fd ne) ∙ e)
      ];
    }
