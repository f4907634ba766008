-- ===== src/Epoller/Requests.antt =====
-- net/epoller.cc and net/channel.h: the calls of a channel's owner, and what the kernel watches.
use ccnet.Prelude.{
  ℕ, ◌≡◌, refl, sym, ap, subst, ◌∙◌, ◌≢◌, ◌⊎◌, inl, inr, true, false, not, Option, none, some,
  arith, ◌==◌, ==_iff, ==_refl, Bool-cases,
}
use ccnet.Prelude.Outcome.{Outcome, ok, assert_failed, ◌>>◌, assert}
use ccnet.Prelude.Maps.{put_same, put_again, put, put_at, put_other}
use ccnet.Channel.{
  Channel, Interest, Index, Change, is_new, is_added, is_deleted, is_none_event, none_event, change,
}
use ccnet.Epoller.{
  Kernel, EPollPoller, EpollEvent, ctl_add, ctl_mod, ctl_del, update_channel, remove_channel,
  change_events, remove, holds, is_free, has_channel, update, set_index, update_by_index,
  remove_by_index,
}
use ccnet.Epoller.Invariant.{Slot, IsConsistent, Changes, Changes-IsConsistent}

pub none_of : (ch : Channel) → is_none_event ch ≡ true → ch.events ≡ none_event
unfolding is_none_event
none_of ch e = ground arith

module _ (k : Kernel) (p : EPollPoller k) (c : ℕ) (v : IsConsistent k p) where
  open k use {Table, interest, epoll_ctl, adds, modifies, deletes}

  abbrev fd : ℕ
  fd = (p.heap c).fd

  -- The state after a call on `c` that leaves `ch` there and `held` in the map.
  abbrev after : Channel → (ℕ → Option ℕ) → Table → EPollPoller k
  after ch channels t = record { heap = put p.heap c ch; channels = channels; table = t }

  after-Changes :
      (heap : ℕ → Channel) (channels : ℕ → Option ℕ) (t : Table) (ch : Channel) (held : Option ℕ)
      (watched : Option EpollEvent)
      → ch.fd ≡ fd
      → ((x : ℕ) → heap x ≡ put p.heap c ch x)
      → ((x : ℕ) → channels x ≡ put p.channels fd held x)
      → ((x : ℕ) → interest t x ≡ put (interest p.table) fd watched x)
      → ((d : ℕ) → held ≡ some d → d ≡ c)
      → (held ≡ none → watched ≡ none)
      → Slot c ch.events ch.index held watched
      → Changes k p (record { heap = heap; channels = channels; table = t }) c
  after-Changes heap channels t ch held watched e hs cs ts own vacant slot = record {
    same_fd = ap (λ ch. ch.fd) (at_c) ∙ e;
    other_channels = λ d ne. hs d ∙ put_other p.heap c ch d ne;
    other_entries = λ x ne. cs x ∙ put_other p.channels fd held x ne;
    other_interest = λ x ne. ts x ∙ put_other (interest p.table) fd watched x ne;
    own = λ d h. own d (sym held_there ∙ h);
    vacant = λ h. watched_there ∙ vacant (sym held_there ∙ h);
    slot = rw (at_c, held_there, watched_there) slot;
  }
    where
      at_c : heap c ≡ ch
      at_c = hs c ∙ put_at p.heap c ch

      held_there : channels fd ≡ held
      held_there = cs fd ∙ put_at p.channels fd held

      watched_there : interest t fd ≡ watched
      watched_there = ts fd ∙ put_at (interest p.table) fd watched

  -- The call returns, keeps the state consistent, and leaves the channel asking for `events`.
  pub record Served (events : Interest) (r : Outcome (EPollPoller k)) : Type 0 where
    pub result : EPollPoller k
    pub returns : r ≡ ok result
    pub consistent : IsConsistent k result
    pub asks : (result.heap c).events ≡ events
    pub others : (d : ℕ) → d ≢ c → result.heap d ≡ p.heap d

  served :
      (own : (d : ℕ) → p.channels fd ≡ some d → d ≡ c) (q : EPollPoller k) (events : Interest)
      (r : Outcome (EPollPoller k))
      → r ≡ ok q
      → (q.heap c).events ≡ events
      → Changes k p q c
      → Served events r
  served own q events r e asks g = record {
    result = q;
    returns = e;
    consistent = Changes-IsConsistent k p q c v own g;
    asks = asks;
    others = g.other_channels;
  }

  module _ (ch : Change) where
    abbrev asked : Channel
    asked = record (p.heap c) { events = change ch (p.heap c).events; added_to_loop = true }

    abbrev asking : EPollPoller k
    asking = record p { heap = put p.heap c asked }

    change_events-eq : change_events k p c ch ≡ update_by_index k asking c (p.heap c).index
    unfolding change_events update_channel
    change_events-eq = rw (put_at p.heap c asked) refl

    -- The channel as the poller leaves it.
    abbrev moved : Index → Channel
    moved i = record asked { index = i }

    abbrev left : Index → (ℕ → Option ℕ) → Table → EPollPoller k
    left i channels t = record {
      heap = put (put p.heap c asked) c (moved i);
      channels = channels;
      table = t;
    }

    abbrev event : EpollEvent
    event = record { events = change ch (p.heap c).events; ptr = c }

    left-Served :
        (i : Index) (channels : ℕ → Option ℕ) (t : Table) (watched : Option EpollEvent)
        (r : Outcome (EPollPoller k))
        → ((d : ℕ) → p.channels fd ≡ some d → d ≡ c)
        → r ≡ ok (left i channels t)
        → ((x : ℕ) → channels x ≡ put p.channels fd (some c) x)
        → ((x : ℕ) → interest t x ≡ put (interest p.table) fd watched x)
        → Slot c (moved i).events i (some c) watched
        → Served (change ch (p.heap c).events) r
    left-Served i channels t watched r own e cs ts slot =
        served own (left i channels t) _ r e
          (ap (λ (x : Channel). x.events) (put_at (put p.heap c asked) c (moved i)))
          (after-Changes _ _ _ (moved i) (some c) watched refl (put_again p.heap c asked (moved i))
            cs ts (λ d h. ground arith) (λ h. cc) slot)

    registers :
        p.channels fd ≡ none
        → Served (change ch (p.heap c).events) (update_by_index k asking c is_new)
    unfolding update_by_index is_free update set_index
    registers free =
        left-Served is_added _ (epoll_ctl p.table ctl_add fd event) (some event) _ (λ d h. cc)
          (rw (put_at p.heap c asked, free, put_at (put p.heap c asked) c (moved is_added)) refl)
          (λ x. refl) (adds p.table fd _ (v.unknown fd free)) (refl, refl)

    module _ (held : p.channels fd ≡ some c) where
      own : (d : ℕ) → p.channels fd ≡ some d → d ≡ c
      own d h = ground arith

      kept : (x : ℕ) → p.channels x ≡ put p.channels fd (some c) x
      kept = put_same p.channels fd (some c) held

      readds :
          interest p.table fd ≡ none
          → Served (change ch (p.heap c).events) (update_by_index k asking c is_deleted)
      unfolding update_by_index is_free has_channel holds update set_index
      readds free =
          left-Served is_added p.channels (epoll_ctl p.table ctl_add fd event) (some event) _ own
            (rw
              (
                put_at p.heap c asked,
                held,
                ==_refl c,
                put_at (put p.heap c asked) c (moved is_added),
              )
              refl)
            kept (adds p.table fd _ free) (refl, refl)

      modifies_or_deletes :
          (old : EpollEvent)
          → interest p.table fd ≡ some old
          → (p.heap c).index ≡ is_added
          → Served (change ch (p.heap c).events) (update_by_index k asking c is_added)
      unfolding update_by_index is_free has_channel holds update set_index
      modifies_or_deletes old w i = elim (Bool-cases (is_none_event asked)) [
        | inl e ↦
            left-Served is_deleted p.channels (epoll_ctl p.table ctl_del fd event) none _ own
              (rw (put_at p.heap c asked, held, ==_refl c, e) refl) kept
              (deletes p.table fd _ old w) (refl, refl, none_of asked e)
        | inr e ↦
            served own
              (record {
                heap = put p.heap c asked;
                channels = p.channels;
                table = epoll_ctl p.table ctl_mod fd event;
              })
              _ _ (rw (put_at p.heap c asked, held, ==_refl c, e) refl)
              (ap (λ (x : Channel). x.events) (put_at p.heap c asked))
              (after-Changes _ _ _ asked (some c) (some event) refl (λ x. refl) kept
                (modifies p.table fd _ old w) (λ d h. ground arith) (λ h. cc) (rw i (refl, refl)))
      ]

    -- On a consistent state a call that changes what a channel asks for is served, unless the
    -- channel is new to the poller and its descriptor is taken.
    pub change_events-Served :
        ((p.heap c).index ≡ is_new → p.channels fd ≡ none)
        → Served (change ch (p.heap c).events) (change_events k p c ch)
    change_events-Served free = rw change_events-eq (by_index (p.heap c).index refl)
      where
        slot_at :
            (i : Index)
            → (p.heap c).index ≡ i
            → Slot c (p.heap c).events i (p.channels fd) (interest p.table fd)
        slot_at i e =
            subst (λ i. Slot c (p.heap c).events i (p.channels fd) (interest p.table fd)) e
              (v.slots c)

        by_index :
            (i : Index)
            → (p.heap c).index ≡ i
            → Served (change ch (p.heap c).events) (update_by_index k asking c i)
        by_index is_new e = registers (free e)
        by_index is_deleted e = let s = slot_at is_deleted e in readds s.0 s.1
        by_index is_added e = let s = slot_at is_added e in modifies_or_deletes s.0 _ s.1 e

    taken_refused :
        (d : ℕ) → p.channels fd ≡ some d → update_by_index k asking c is_new ≡ assert_failed
    unfolding update_by_index is_free
    taken_refused d taken = rw (put_at p.heap c asked, taken) refl

    pub change_events_refused :
        (d : ℕ)
        → (p.heap c).index ≡ is_new
        → p.channels fd ≡ some d
        → change_events k p c ch ≡ assert_failed
    change_events_refused d e taken =
        change_events-eq ∙ ap (update_by_index k asking c) e ∙ taken_refused d taken

  -- A channel that asks for nothing and is not new is removed.
  abbrev unlinked : Channel
  unlinked = record (p.heap c) { added_to_loop = false }

  abbrev removed : Channel
  removed = record unlinked { index = is_new }

  removes :
      (t : Table) (r : Outcome (EPollPoller k))
      → p.channels fd ≡ some c
      → r
        ≡ ok (record {
          heap = put (put p.heap c unlinked) c removed;
          channels = put p.channels fd none;
          table = t;
        })
      → ((x : ℕ) → interest t x ≡ put (interest p.table) fd none x)
      → (p.heap c).events ≡ none_event
      → Served none_event r
  removes t r held e ts idle =
      served (λ d h. ground arith) _ _ r e
        (ap (λ (x : Channel). x.events) (put_at (put p.heap c unlinked) c removed) ∙ idle)
        (after-Changes _ _ _ removed none none refl (put_again p.heap c unlinked removed)
          (λ x. refl) ts (λ d h. cc) (λ h. refl) (λ h. cc, idle))

  abbrev erased : EPollPoller k
  erased = record {
    heap = put p.heap c unlinked;
    channels = put p.channels fd none;
    table = p.table;
  }

  remove-eq :
      p.channels fd ≡ some c
      → is_none_event (p.heap c) ≡ true
      → remove k p c ≡ remove_by_index k erased c (p.heap c).index
  unfolding remove remove_channel is_free has_channel holds is_none_event
  remove-eq held idle = rw (put_at p.heap c unlinked, held, ==_refl c, idle) refl

  module _ (held : p.channels fd ≡ some c) (idle : (p.heap c).events ≡ none_event) where
    removes_added :
        (old : EpollEvent)
        → interest p.table fd ≡ some old
        → Served none_event (remove_by_index k erased c is_added)
    unfolding remove_by_index update set_index
    removes_added old w =
        removes (epoll_ctl p.table ctl_del fd (record { events = (p.heap c).events; ptr = c })) _
          held (rw (put_at p.heap c unlinked) refl) (deletes p.table fd _ old w) idle

    removes_deleted :
        interest p.table fd ≡ none → Served none_event (remove_by_index k erased c is_deleted)
    unfolding remove_by_index update set_index
    removes_deleted w =
        removes p.table _ held (rw (put_at p.heap c unlinked) refl)
          (put_same (interest p.table) fd none w) idle

  -- On a consistent state `remove` is served for a channel that is not new and asks for nothing.
  pub remove-Served :
      (p.heap c).index ≢ is_new → is_none_event (p.heap c) ≡ true → Served none_event (remove k p c)
  remove-Served old idle = by_index (p.heap c).index refl (v.slots c)
    where
      by_index :
          (i : Index)
          → (p.heap c).index ≡ i
          → Slot c (p.heap c).events (p.heap c).index (p.channels fd) (interest p.table fd)
          → Served none_event (remove k p c)
      by_index is_new e s = absurd (old e)
      by_index is_added e s =
          let t =
            subst (λ i. Slot c (p.heap c).events i (p.channels fd) (interest p.table fd)) e s in
          rw (remove-eq t.0 idle) (
            subst (λ i. Served none_event (remove_by_index k erased c i)) (sym e)
              (removes_added t.0 (none_of (p.heap c) idle) _ t.1))
      by_index is_deleted e s =
          let t =
            subst (λ i. Slot c (p.heap c).events i (p.channels fd) (interest p.table fd)) e s in
          rw (remove-eq t.0 idle) (
            subst (λ i. Served none_event (remove_by_index k erased c i)) (sym e)
              (removes_deleted t.0 (none_of (p.heap c) idle) t.1))

  busy_refused : is_none_event (p.heap c) ≡ false → remove k p c ≡ assert_failed
  unfolding remove
  busy_refused e = rw e refl

  unheld_refused :
      is_none_event (p.heap c) ≡ true → p.channels fd ≢ some c → remove k p c ≡ assert_failed
  unfolding remove remove_channel has_channel is_free holds
  unheld_refused e ne = rw (e, put_at p.heap c unlinked) (by (p.channels fd) refl)
    where
      by :
          (o : Option ℕ)
          → p.channels fd ≡ o
          → (do
            assert (not (is_free k (p.channels fd)))
            assert (holds k (p.channels fd) c)
            assert (is_none_event unlinked)
            remove_by_index k erased c (p.heap c).index)
            ≡ assert_failed
      by none h = rw h refl
      by (some d) h = elim (Bool-cases (d == c)) [
        | inl same ↦ absurd (ne (h ∙ ap some ((==_iff d c).0 same)))
        | inr other ↦ rw (h, other) refl
      ]

  -- Otherwise it fails an assertion.
  pub remove_refused :
      ((p.heap c).index ≡ is_new) ⊎ (is_none_event (p.heap c) ≡ false)
      → remove k p c ≡ assert_failed
  remove_refused (inr e) = busy_refused e
  remove_refused (inl e) = elim (Bool-cases (is_none_event (p.heap c))) [
    | inl idle ↦
        unheld_refused idle
          (subst (λ i. Slot c (p.heap c).events i (p.channels fd) (interest p.table fd)) e
            (v.slots c)).0
    | inr busy ↦ busy_refused busy
  ]
