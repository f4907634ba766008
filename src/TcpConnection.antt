-- ===== src/TcpConnection.antt =====
-- net/tcp_connection.cc: a connection with its buffers. What the kernel answers to a write or a read
-- is an argument; the functors queued in the loop and the callbacks made are lists in the state.
pub mod Stream
pub mod Drain
pub mod Runs
mod Tests
use ccnet.Prelude.{
  ℕ, zero, suc, ◌+◌, ◌-◌, ◌*◌, ◌/◌, ◌%◌, ◌^◌, ◌≤◌, ◌<◌, min, max, ◌≡◌, refl, sym, ap, ap₂, subst,
  ◌∙◌, ◌≡⟨◌⟩◌, ◌∎, ◌≢◌, ◌↔◌, ◌⊎◌, inl, inr, Bool, true, false, not, ◌&&◌, ◌||◌, Option, none, some,
  List, [], ◌∷◌, ◌++◌, map, append-nil, append_assoc, arith, ltb, leb, ◌==◌, if◌then◌else◌, ltb_iff,
  leb_iff, ==_iff, ==_refl, Bool-cases, Option-cases, length, get_elem?, get_or, take, drop,
  replicate, slice, write_at, length-append, length-take, length-drop, length-replicate,
}
use ccnet.Prelude.Outcome.{Outcome, ok, assert_failed, length_error, ◌>>=◌, ◌>>◌, assert, value_or}
use ccnet.Prelude.Size.{sub_size}
use ccnet.Buffer.{Buffer, append, retrieve, readable_bytes, retrieve_all, peeked}
use ccnet.Buffer.ReadFd.{Reply, Read, read_fd}
use ccnet.Channel.{
  Interest, Change, change, none_event, enable_reading, disable_reading, enable_writing,
  disable_writing, disable_all,
}

pub data State : Type 0 where
  disconnected : State
  connecting : State
  connected : State
  disconnecting : State

-- Functors that wait in the loop.
pub data Task : Type 0 where
  write_complete : Task
  high_water_mark : ℕ → Task
  send_message : List ℕ → Task
  shutdown_task : Task
  force_close_task : Task
  delayed_force_close : Task
  start_read_task : Task
  stop_read_task : Task

pub data Call : Type 0 where
  connection_callback : State → Call
  message_callback : Call
  close_callback : Call

-- `sent` are the bytes that the kernel took, and `write_shut` that `shutdownWrite` was called.
pub record TcpConnection : Type 0 where
  pub state : State
  pub reading : Bool
  pub events : Interest
  pub in_poller : Bool
  pub tied : Bool
  pub output : Buffer
  pub input : Buffer
  pub mark : ℕ
  pub wants_write_complete : Bool
  pub wants_high_water_mark : Bool
  pub sent : List ℕ
  pub write_shut : Bool
  pub tasks : List Task
  pub calls : List Call

-- The result of write(2): the count of bytes taken, or the error number.
pub data WriteReply : Type 0 where
  wrote : ℕ → WriteReply
  write_failed : ℕ → WriteReply

abbrev pub epipe : ℕ
epipe = 32

abbrev pub econnreset : ℕ
econnreset = 104

abbrev pub is_disconnected : State → Bool
is_disconnected disconnected = true
is_disconnected connecting = false
is_disconnected connected = false
is_disconnected disconnecting = false

abbrev pub is_connected : State → Bool
is_connected disconnected = false
is_connected connecting = false
is_connected connected = true
is_connected disconnecting = false

abbrev pub is_disconnecting : State → Bool
is_disconnecting disconnected = false
is_disconnecting connecting = false
is_disconnecting connected = false
is_disconnecting disconnecting = true

abbrev pub is_connecting : State → Bool
is_connecting disconnected = false
is_connecting connecting = true
is_connecting connected = false
is_connecting disconnecting = false

unfoldable pub update : Change → TcpConnection → TcpConnection
update ch c = record c { events = change ch c.events; in_poller = true }

unfoldable pub queue : Task → TcpConnection → TcpConnection
queue t c = record c { tasks = c.tasks ++ (t ∷ []) }

unfoldable pub call : Call → TcpConnection → TcpConnection
call f c = record c { calls = c.calls ++ (f ∷ []) }

-- What the direct write of `sendInLoop` leaves in its variables.
pub record Attempt : Type 0 where
  pub connection : TcpConnection
  pub nwrote : ℕ
  pub remaining : ℕ
  pub fault_error : Bool

unfoldable pub attempt_write : TcpConnection → List ℕ → WriteReply → Attempt
attempt_write c bytes (wrote n) =
    let remaining = sub_size (length bytes) n in
    let d : TcpConnection = record c { sent = c.sent ++ take n bytes } in
    record {
      connection = if (remaining == 0) && c.wants_write_complete then queue write_complete d else d;
      nwrote = n;
      remaining = remaining;
      fault_error = false;
    }
attempt_write c bytes (write_failed e) = record {
  connection = c;
  nwrote = 0;
  remaining = length bytes;
  fault_error = (e == epipe) || (e == econnreset);
}

-- The bytes that were not written wait in the output buffer.
unfoldable pub queue_rest : TcpConnection → List ℕ → Outcome TcpConnection
queue_rest c rest = do
  let old_len = readable_bytes c.output
  let above = leb c.mark (old_len + length rest) && ltb old_len c.mark && c.wants_high_water_mark
  let d = if above then queue (high_water_mark (old_len + length rest)) c else c
  b ← append d.output rest
  let e : TcpConnection = record d { output = b }
  ok (if d.events.writing then e else update enable_writing e)

unfoldable pub finish_send : Attempt → List ℕ → Outcome TcpConnection
finish_send a bytes = do
  assert (leb a.remaining (length bytes))
  if not a.fault_error && ltb 0 a.remaining
      then queue_rest a.connection (drop a.nwrote bytes)
      else ok a.connection

unfoldable pub send_in_loop : TcpConnection → List ℕ → WriteReply → Outcome TcpConnection
send_in_loop c bytes reply =
    if is_disconnected c.state
    then ok c
    else finish_send
        (if not c.events.writing && (readable_bytes c.output == 0)
          then attempt_write c bytes reply
          else record { connection = c; nwrote = 0; remaining = length bytes; fault_error = false })
        bytes

-- `send`, from the loop's thread or from another.
unfoldable pub send : Bool → TcpConnection → List ℕ → WriteReply → Outcome TcpConnection
send in_loop c bytes reply =
    if is_connected c.state
    then (if in_loop then send_in_loop c bytes reply else ok (queue (send_message bytes) c))
    else ok c

-- `send(Buffer*)` empties the buffer it is given.
unfoldable pub send_buffer :
    Bool → TcpConnection → Buffer → WriteReply → Outcome (TcpConnection × Buffer)
send_buffer in_loop c b reply =
    if is_connected c.state
    then (do d ← send in_loop c (peeked b) reply; ok (d, retrieve_all b))
    else ok (c, b)

unfoldable pub shutdown_in_loop : TcpConnection → TcpConnection
shutdown_in_loop c = if c.events.writing then c else record c { write_shut = true }

unfoldable pub shutdown : Bool → TcpConnection → TcpConnection
shutdown in_loop c =
    if is_connected c.state
    then (let d : TcpConnection = record c { state = disconnecting } in
        if in_loop then shutdown_in_loop d else queue shutdown_task d)
    else c

unfoldable pub handle_close : TcpConnection → Outcome TcpConnection
handle_close c = do
  assert (is_connected c.state || is_disconnecting c.state)
  let d = update disable_all (record c { state = disconnected })
  ok (call close_callback (call (connection_callback disconnected) d))

unfoldable pub force_close : TcpConnection → TcpConnection
force_close c =
    if is_connected c.state || is_disconnecting c.state
    then queue force_close_task (record c { state = disconnecting })
    else c

unfoldable pub force_close_with_delay : TcpConnection → TcpConnection
force_close_with_delay c =
    if is_connected c.state || is_disconnecting c.state
    then queue delayed_force_close (record c { state = disconnecting })
    else c

unfoldable pub force_close_in_loop : TcpConnection → Outcome TcpConnection
force_close_in_loop c =
    if is_connected c.state || is_disconnecting c.state then handle_close c else ok c

unfoldable pub start_read_in_loop : TcpConnection → TcpConnection
start_read_in_loop c =
    if not c.reading || not c.events.reading
    then record (update enable_reading c) { reading = true }
    else c

unfoldable pub stop_read_in_loop : TcpConnection → TcpConnection
stop_read_in_loop c =
    if c.reading || c.events.reading
    then record (update disable_reading c) { reading = false }
    else c

unfoldable pub connect_established : TcpConnection → Outcome TcpConnection
connect_established c = do
  assert (is_connecting c.state)
  ok (
      call (connection_callback connected)
        (update enable_reading (record c { state = connected; tied = true })))

unfoldable pub connect_destroyed : TcpConnection → Outcome TcpConnection
connect_destroyed c = do
  let d =
      if is_connected c.state
      then call (connection_callback disconnected)
          (update disable_all (record c { state = disconnected }))
      else c
  assert (not d.events.reading && not d.events.writing)
  ok (record d { in_poller = false })

-- The message callback may take bytes from the buffer that it is given.
unfoldable pub handle_read :
    (Buffer → Outcome Buffer) → TcpConnection → (List ℕ → Reply) → Outcome TcpConnection
handle_read on_message c readv = do
  r ← read_fd readv c.input
  let d : TcpConnection = record c { input = r.buffer }
  by_count d r.count
  where
    by_count : TcpConnection → Option ℕ → Outcome TcpConnection
    by_count d none = ok d
    by_count d (some zero) = handle_close d
    by_count d (some (suc n)) = do
      b ← on_message d.input
      ok (call message_callback (record d { input = b }))

-- After the last byte: no more interest in writing, and the end of the stream where it waits.
unfoldable pub drained : TcpConnection → TcpConnection
drained c =
    let d = update disable_writing c in
    let e = if d.wants_write_complete then queue write_complete d else d in
    if is_disconnecting e.state then shutdown_in_loop e else e

unfoldable pub handle_write : TcpConnection → WriteReply → Outcome TcpConnection
handle_write c (write_failed e) = ok c
handle_write c (wrote n) =
    if c.events.writing && ltb 0 n
    then (do
      let bytes = peeked c.output
      b ← retrieve c.output n
      let d : TcpConnection = record c { output = b; sent = c.sent ++ take n bytes }
      ok (if readable_bytes b == 0 then drained d else d))
    else ok c
