-- ===== src/Channel.antt =====
-- net/channel.h and net/channel.cc: the events that a descriptor waits for and how they are handed
-- to the callbacks.
use ccnet.Prelude.{ℕ, Bool, true, false, not, ◌&&◌, ◌||◌, Option, none, some, if◌then◌else◌}

-- `events_`, which only ever holds unions of `kReadEvent` and `kWriteEvent`.
pub record Interest : Type 0 where
  pub reading : Bool
  pub writing : Bool

-- `kNew`, `kAdded` and `kDeleted` of net/epoller.cc.
pub data Index : Type 0 where
  is_new : Index
  is_added : Index
  is_deleted : Index

-- The flags of <poll.h> that the code tests in `revents_`.
pub record Flags : Type 0 where
  pub poll_in : Bool
  pub poll_pri : Bool
  pub poll_out : Bool
  pub poll_err : Bool
  pub poll_hup : Bool
  pub poll_nval : Bool
  pub poll_rdhup : Bool

abbrev pub no_flags : Flags
no_flags = record {
  poll_in = false;
  poll_pri = false;
  poll_out = false;
  poll_err = false;
  poll_hup = false;
  poll_nval = false;
  poll_rdhup = false;
}

pub record Channel : Type 0 where
  pub fd : ℕ
  pub events : Interest
  pub revents : Flags
  pub index : Index
  pub event_handling : Bool
  pub added_to_loop : Bool

abbrev pub none_event : Interest
none_event = record { reading = false; writing = false }

unfoldable pub create : ℕ → Channel
create fd = record {
  fd = fd;
  events = none_event;
  revents = no_flags;
  index = is_new;
  event_handling = false;
  added_to_loop = false;
}

unfoldable pub is_none_event : Channel → Bool
is_none_event c = not c.events.reading && not c.events.writing

-- The calls that change `events_` before `update()`.
pub data Change : Type 0 where
  enable_reading : Change
  disable_reading : Change
  enable_writing : Change
  disable_writing : Change
  disable_all : Change

unfoldable pub change : Change → Interest → Interest
change enable_reading i = record i { reading = true }
change disable_reading i = record i { reading = false }
change enable_writing i = record i { writing = true }
change disable_writing i = record i { writing = false }
change disable_all i = none_event

pub data Callback : Type 0 where
  close_callback : Callback
  error_callback : Callback
  read_callback : Callback
  write_callback : Callback

-- A callback is called if it is set. `S` is whatever the callbacks change.
unfoldable pub invoke {ℓ} : {S : Type ℓ} → (Callback → Option (S → S)) → Callback → S → S
invoke {S = S} callbacks c s = by (callbacks c)
  where
    by : Option (S → S) → S
    by none = s
    by (some f) = f s

-- `handleEventWithGuard`: `revents_` is set by the poller alone, and stays as it is meanwhile.
unfoldable pub handle_event_with_guard {ℓ} :
    {S : Type ℓ} → (Callback → Option (S → S)) → Flags → S → S
handle_event_with_guard callbacks revents s =
    let a =
      if revents.poll_hup && not revents.poll_in then invoke callbacks close_callback s else s in
    let b =
      if revents.poll_err || revents.poll_nval then invoke callbacks error_callback a else a in
    let c =
      if revents.poll_in || revents.poll_pri || revents.poll_rdhup
      then invoke callbacks read_callback b
      else b in
    if revents.poll_out then invoke callbacks write_callback c else c

-- `handleEvent`: nothing is called where the channel is tied and its owner is gone.
unfoldable pub handle_event {ℓ} :
    {S : Type ℓ} → Bool → Bool → (Callback → Option (S → S)) → Flags → S → S
handle_event tied owner_alive callbacks revents s =
    if tied && not owner_alive then s else handle_event_with_guard callbacks revents s
