-- ===== src/Connector.antt =====
-- net/connector.cc: attempts to connect, with a delay before each retry. What the system answers
-- is an argument. Sockets are numbered as they are created.
pub mod Sound
pub mod Sockets
pub mod Handed
pub mod Runs
mod Tests
use ccnet.Prelude.{
  ℕ, zero, suc, ◌+◌, ◌-◌, ◌*◌, ◌/◌, ◌%◌, ◌^◌, ◌≤◌, ◌<◌, min, max, ◌≡◌, refl, sym, ap, ap₂, subst,
  ◌∙◌, ◌≡⟨◌⟩◌, ◌∎, ◌≢◌, ◌↔◌, ◌⊎◌, inl, inr, Bool, true, false, not, ◌&&◌, ◌||◌, Option, none, some,
  List, [], ◌∷◌, ◌++◌, map, append-nil, append_assoc, arith, ltb, leb, ◌==◌, if◌then◌else◌, ltb_iff,
  leb_iff, ==_iff, ==_refl, Bool-cases, Option-cases, length, get_elem?, get_or, take, drop,
  replicate, slice, write_at, length-append, length-take, length-drop, length-replicate,
}
use ccnet.Prelude.Outcome.{Outcome, ok, assert_failed, length_error, ◌>>=◌, ◌>>◌, assert, value_or}
use ccnet.Channel.{Interest, none_event, change, enable_writing, disable_all}

pub data State : Type 0 where
  disconnected : State
  connecting : State
  connected : State

abbrev pub is_disconnected : State → Bool
is_disconnected disconnected = true
is_disconnected connecting = false
is_disconnected connected = false

abbrev pub is_connecting : State → Bool
is_connecting disconnected = false
is_connecting connecting = true
is_connecting connected = false

-- The functors that wait in the loop, and the timers.
pub data Task : Type 0 where
  start_task : Task
  stop_task : Task
  reset_task : Task
  retry_after : ℕ → Task

-- `channel_`: its descriptor, what it waits for, and whether it is added to the loop.
pub record Link : Type 0 where
  pub sockfd : ℕ
  pub events : Interest
  pub added : Bool

-- `created` counts the sockets made; those closed and those handed to the callback are lists.
pub record Connector : Type 0 where
  pub connect : Bool
  pub state : State
  pub channel : Option Link
  pub retry_delay_ms : ℕ
  pub created : ℕ
  pub closed : List ℕ
  pub handed : List ℕ
  pub tasks : List Task

abbrev pub max_retry_delay_ms : ℕ
max_retry_delay_ms = 30000

abbrev pub init_retry_delay_ms : ℕ
init_retry_delay_ms = 500

unfoldable pub create : Connector
create = record {
  connect = false;
  state = disconnected;
  channel = none;
  retry_delay_ms = init_retry_delay_ms;
  created = 0;
  closed = [];
  handed = [];
  tasks = [];
}

unfoldable pub queue : Task → Connector → Connector
queue t c = record c { tasks = c.tasks ++ (t ∷ []) }

unfoldable pub close : ℕ → Connector → Connector
close sockfd c = record c { closed = sockfd ∷ c.closed }

unfoldable pub retry : ℕ → Connector → Connector
retry sockfd c =
    let d : Connector = record (close sockfd c) { state = disconnected } in
    if d.connect
    then record (queue (retry_after d.retry_delay_ms) d) {
      retry_delay_ms = min (d.retry_delay_ms * 2) max_retry_delay_ms;
    }
    else d

-- A set channel may not be there yet.
unfoldable pub connecting_on : ℕ → Connector → Outcome Connector
connecting_on sockfd c = by c.channel
  where
    by : Option Link → Outcome Connector
    by (some l) = assert_failed
    by none = ok (record c {
      state = connecting;
      channel =
          some
            (record { sockfd = sockfd; events = change enable_writing none_event; added = true });
    })

-- The groups of error numbers of `Connector::connect`, by their numbers on Linux: EINPROGRESS,
-- EINTR and EISCONN; EAGAIN, EADDRINUSE, EADDRNOTAVAIL, ECONNREFUSED and ENETUNREACH.
abbrev pub goes_on : ℕ → Bool
goes_on e = (e == 0) || (e == 115) || (e == 4) || (e == 106)

abbrev pub is_retried : ℕ → Bool
is_retried e = (e == 11) || (e == 98) || (e == 99) || (e == 111) || (e == 101)

-- Every other error closes the socket and gives up.
unfoldable pub connect_with : ℕ → Connector → Outcome Connector
connect_with saved_errno c =
    let sockfd = c.created in
    let d : Connector = record c { created = suc c.created } in
    if goes_on saved_errno
    then connecting_on sockfd d
    else if is_retried saved_errno
    then ok (retry sockfd d)
    else ok (close sockfd d)

unfoldable pub start_in_loop : ℕ → Connector → Outcome Connector
start_in_loop saved_errno c = do
  assert (is_disconnected c.state)
  if c.connect then connect_with saved_errno c else ok c

-- `start`, in the loop's thread or in another.
unfoldable pub start : Bool → ℕ → Connector → Outcome Connector
start in_loop saved_errno c =
    let d : Connector = record c { connect = true } in
    if in_loop then start_in_loop saved_errno d else ok (queue start_task d)

unfoldable pub restart : ℕ → Connector → Outcome Connector
restart saved_errno c =
    start_in_loop saved_errno
      (record c { state = disconnected; retry_delay_ms = init_retry_delay_ms; connect = true })

-- A null `channel_` is not to be used.
unfoldable pub remove_and_reset_channel : Connector → Outcome (ℕ × Connector)
remove_and_reset_channel c = by c.channel
  where
    by : Option Link → Outcome (ℕ × Connector)
    by none = assert_failed
    by (some l) = ok (
      l.sockfd,
      queue reset_task (record c {
        channel = some (record l { events = change disable_all l.events; added = false });
      }),
    )

unfoldable pub reset_channel : Connector → Connector
reset_channel c = record c { channel = none }

unfoldable pub stop : Connector → Connector
stop c = queue stop_task (record c { connect = false })

unfoldable pub stop_in_loop : Connector → Outcome Connector
stop_in_loop c =
    if is_connecting c.state
    then (do
      (sockfd, d) ← remove_and_reset_channel (record c { state = disconnected })
      ok (retry sockfd d))
    else ok c

-- The socket's error and whether it is connected to itself are what the system answers.
unfoldable pub handle_write : ℕ → Bool → Connector → Outcome Connector
handle_write err self_connect c =
    if is_connecting c.state
    then (do
      (sockfd, d) ← remove_and_reset_channel c
      if not (err == 0) || self_connect then ok (retry sockfd d) else (do
        let e : Connector = record d { state = connected }
        ok (if e.connect then record e { handed = sockfd ∷ e.handed } else close sockfd e)))
    else (do assert (is_disconnected c.state); ok c)

unfoldable pub handle_error : Connector → Outcome Connector
handle_error c =
    if is_connecting c.state
    then (do (sockfd, d) ← remove_and_reset_channel c; ok (retry sockfd d))
    else ok c
