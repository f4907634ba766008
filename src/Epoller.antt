-- ===== src/Epoller.antt =====
-- net/epoller.cc with net/poller.cc, and the calls of net/channel.h that lead there: which channels
-- the poller knows and which descriptors the kernel watches. The event loop only hands them on.
pub mod Invariant
pub mod Requests
pub mod Runs
pub mod Active
mod Tests
use ccnet.Prelude.{
  ℕ, zero, suc, ◌+◌, ◌-◌, ◌*◌, ◌/◌, ◌%◌, ◌^◌, ◌≤◌, ◌<◌, min, max, ◌≡◌, refl, sym, ap, ap₂, subst,
  ◌∙◌, ◌≡⟨◌⟩◌, ◌∎, ◌≢◌, ◌↔◌, ◌⊎◌, inl, inr, Bool, true, false, not, ◌&&◌, ◌||◌, Option, none, some,
  List, [], ◌∷◌, ◌++◌, map, append-nil, append_assoc, arith, ltb, leb, ◌==◌, if◌then◌else◌, ltb_iff,
  leb_iff, ==_iff, ==_refl, Bool-cases, Option-cases, length, get_elem?, get_or, take, drop,
  replicate, slice, write_at, length-append, length-take, length-drop, length-replicate,
}
use ccnet.Prelude.Outcome.{Outcome, ok, assert_failed, length_error, ◌>>=◌, ◌>>◌, assert, value_or}
use ccnet.Prelude.Maps.{put}
use ccnet.Channel.{
  Channel, Interest, Index, Flags, Change, is_new, is_added, is_deleted, is_none_event, change,
}

pub data Operation : Type 0 where
  ctl_add : Operation
  ctl_mod : Operation
  ctl_del : Operation

-- `struct epoll_event`: what to watch for, and the address of the channel.
pub record EpollEvent : Type 0 where
  pub events : Interest
  pub ptr : ℕ

-- The interest list of epoll(7), as its manual describes the calls that succeed.
pub record Kernel : Type 1 where
  pub Table : Type 0
  pub interest : Table → ℕ → Option EpollEvent
  pub epoll_ctl : Table → Operation → ℕ → EpollEvent → Table
  pub adds :
      (t : Table) (fd : ℕ) (e : EpollEvent)
      → interest t fd ≡ none
      → (x : ℕ) → interest (epoll_ctl t ctl_add fd e) x ≡ put (interest t) fd (some e) x
  pub modifies :
      (t : Table) (fd : ℕ) (e old : EpollEvent)
      → interest t fd ≡ some old
      → (x : ℕ) → interest (epoll_ctl t ctl_mod fd e) x ≡ put (interest t) fd (some e) x
  pub deletes :
      (t : Table) (fd : ℕ) (e old : EpollEvent)
      → interest t fd ≡ some old
      → (x : ℕ) → interest (epoll_ctl t ctl_del fd e) x ≡ put (interest t) fd none x

module _ (k : Kernel) where
  open k use {Table, interest, epoll_ctl}

  -- The channels by address, the poller's map from descriptors to them, and the kernel's table.
  pub record EPollPoller : Type 0 where
    pub heap : ℕ → Channel
    pub channels : ℕ → Option ℕ
    pub table : Table

  -- Whether the map holds the channel under the descriptor.
  unfoldable pub holds : Option ℕ → ℕ → Bool
  holds none c = false
  holds (some d) c = d == c

  unfoldable pub is_free : Option ℕ → Bool
  is_free none = true
  is_free (some d) = false

  unfoldable pub has_channel : EPollPoller → ℕ → Bool
  has_channel p c = holds (p.channels (p.heap c).fd) c

  unfoldable pub update : EPollPoller → Operation → ℕ → EPollPoller
  update p op c = record p {
    table = epoll_ctl p.table op (p.heap c).fd (record { events = (p.heap c).events; ptr = c });
  }

  unfoldable pub set_index : EPollPoller → ℕ → Index → EPollPoller
  set_index p c i = record p { heap = put p.heap c (record (p.heap c) { index = i }) }

  unfoldable pub update_by_index : EPollPoller → ℕ → Index → Outcome EPollPoller
  update_by_index p c is_new = do
    assert (is_free (p.channels (p.heap c).fd))
    let q : EPollPoller = record p { channels = put p.channels (p.heap c).fd (some c) }
    ok (update (set_index q c is_added) ctl_add c)
  update_by_index p c is_deleted = do
    assert (not (is_free (p.channels (p.heap c).fd)))
    assert (has_channel p c)
    ok (update (set_index p c is_added) ctl_add c)
  update_by_index p c is_added = do
    assert (not (is_free (p.channels (p.heap c).fd)))
    assert (has_channel p c)
    ok (
        if is_none_event (p.heap c)
        then set_index (update p ctl_del c) c is_deleted
        else update p ctl_mod c)

  unfoldable pub update_channel : EPollPoller → ℕ → Outcome EPollPoller
  update_channel p c = update_by_index p c (p.heap c).index

  unfoldable pub remove_by_index : EPollPoller → ℕ → Index → Outcome EPollPoller
  remove_by_index p c is_new = assert_failed
  remove_by_index p c is_added = ok (set_index (update p ctl_del c) c is_new)
  remove_by_index p c is_deleted = ok (set_index p c is_new)

  -- The index is tested before the channel is erased from the map.
  unfoldable pub remove_channel : EPollPoller → ℕ → Outcome EPollPoller
  remove_channel p c = do
    assert (not (is_free (p.channels (p.heap c).fd)))
    assert (has_channel p c)
    assert (is_none_event (p.heap c))
    remove_by_index (record p { channels = put p.channels (p.heap c).fd none }) c (p.heap c).index

  -- `Channel::enableReading` and its kin: the new interest, then `Channel::update`.
  unfoldable pub change_events : EPollPoller → ℕ → Change → Outcome EPollPoller
  change_events p c ch =
      update_channel
        (record p {
          heap =
              put p.heap c
                (record (p.heap c) { events = change ch (p.heap c).events; added_to_loop = true });
        })
        c

  -- `Channel::remove`.
  unfoldable pub remove : EPollPoller → ℕ → Outcome EPollPoller
  remove p c = do
    assert (is_none_event (p.heap c))
    remove_channel (record p { heap = put p.heap c (record (p.heap c) { added_to_loop = false }) })
        c

  -- The loop of `fillActiveChannels`: what `epoll_wait` wrote, as pairs of flags and addresses. Its first
  -- assertion, on their number, stands in `poll`.
  unfoldable pub fill_active_channels :
      EPollPoller → List (Flags × ℕ) → Outcome (List ℕ × EPollPoller)
  fill_active_channels p [] = ok ([], p)
  fill_active_channels p ((revents, c) ∷ es) = do
    assert (not (is_free (p.channels (p.heap c).fd)))
    assert (has_channel p c)
    (active, q) ←
        fill_active_channels
          (record p { heap = put p.heap c (record (p.heap c) { revents = revents }) }) es
    ok (c ∷ active, q)

  -- `poll`, with the size of `events_` before and after: where the events fill it, it is doubled.
  unfoldable pub poll : ℕ → EPollPoller → List (Flags × ℕ) → Outcome (List ℕ × EPollPoller × ℕ)
  poll size p [] = ok ([], p, size)
  poll size p (e ∷ es) = do
    let num_events = length (e ∷ es)
    assert (leb num_events size)
    (active, q) ← fill_active_channels p (e ∷ es)
    ok (active, q, (if num_events == size then size * 2 else size))
