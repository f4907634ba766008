-- ===== src/TcpClient.antt =====
-- net/tcp_client.cc: one connection at a time, over a connector. A connection is known by the number in
-- its name; the functors for the loop are a list in the state, and so are the connections shut down.
pub mod Single
pub mod Runs
mod Tests
use ccnet.Prelude.{
  ℕ, zero, suc, ◌+◌, ◌-◌, ◌*◌, ◌/◌, ◌%◌, ◌^◌, ◌≤◌, ◌<◌, min, max, ◌≡◌, refl, sym, ap, ap₂, subst,
  ◌∙◌, ◌≡⟨◌⟩◌, ◌∎, ◌≢◌, ◌↔◌, ◌⊎◌, inl, inr, Bool, true, false, not, ◌&&◌, ◌||◌, Option, none, some,
  List, [], ◌∷◌, ◌++◌, map, append-nil, append_assoc, arith, ltb, leb, ◌==◌, if◌then◌else◌, ltb_iff,
  leb_iff, ==_iff, ==_refl, Bool-cases, Option-cases, length, get_elem?, get_or, take, drop,
  replicate, slice, write_at, length-append, length-take, length-drop, length-replicate,
}
use ccnet.Prelude.Outcome.{Outcome, ok, assert_failed, length_error, ◌>>=◌, ◌>>◌, assert, value_or}
use ccnet.Connector.{Connector}
use ccnet.Connector
use ccnet.TcpServer.{Connection, Functor, established, destroyed}

pub record TcpClient : Type 0 where
  pub connector : Connector
  pub retry : Bool
  pub connect : Bool
  pub next_conn_id : ℕ
  pub connection : Option Connection
  pub functors : List Functor
  pub shut : List Connection

unfoldable pub create : TcpClient
create = record {
  connector = Connector.create;
  retry = false;
  connect = true;
  next_conn_id = 1;
  connection = none;
  functors = [];
  shut = [];
}

unfoldable pub enable_retry : TcpClient → TcpClient
enable_retry t = record t { retry = true }

-- What a call of the connector leaves.
abbrev pub with_connector : TcpClient → Outcome Connector → Outcome TcpClient
with_connector t r = r >>= λ d. ok (record t { connector = d })

unfoldable pub connect : Bool → ℕ → TcpClient → Outcome TcpClient
connect in_loop saved_errno t =
    with_connector (record t { connect = true }) (Connector.start in_loop saved_errno t.connector)

unfoldable pub disconnect : TcpClient → TcpClient
disconnect t = by t.connection
  where
    by : Option Connection → TcpClient
    by none = record t { connect = false }
    by (some c) = record t { connect = false; shut = t.shut ++ (c ∷ []) }

unfoldable pub stop : TcpClient → TcpClient
stop t = record t { connect = false; connector = Connector.stop t.connector }

-- `connectEstablished` is called at once.
unfoldable pub new_connection : ℕ → TcpClient → TcpClient
new_connection sockfd t =
    let conn : Connection = record { id = t.next_conn_id; sockfd = sockfd; io_loop = 0 } in
    record t {
      next_conn_id = suc t.next_conn_id;
      connection = some conn;
      functors = t.functors ++ (established conn ∷ []);
    }

-- The socket that a call of the connector handed to the callback.
unfoldable pub handed_over : List ℕ → List ℕ → Option ℕ
handed_over old [] = none
handed_over old (s ∷ ss) = if ltb (length old) (length (s ∷ ss)) then some s else none

unfoldable pub on_handed : Option ℕ → TcpClient → TcpClient
on_handed none t = t
on_handed (some s) t = new_connection s t

-- `Connector::handleWrite`, which ends with the client's `newConnection` as its callback.
unfoldable pub handle_write : ℕ → Bool → TcpClient → Outcome TcpClient
handle_write err self_connect t = Connector.handle_write err self_connect t.connector >>= λ d.
    ok (on_handed (handed_over t.connector.handed d.handed) (record t { connector = d }))

abbrev pub is_held : Connection → Option Connection → Bool
is_held c none = false
is_held c (some d) = d.id == c.id

unfoldable pub remove_connection : ℕ → Connection → TcpClient → Outcome TcpClient
remove_connection saved_errno conn t = do
  assert (is_held conn t.connection)
  let u : TcpClient = record t { connection = none; functors = t.functors ++ (destroyed conn ∷ []) }
  if t.retry && t.connect
      then with_connector u (Connector.restart saved_errno u.connector)
      else ok u

-- What the destructor asks for: `forceClose` of a connection that nobody else has, or the connector
-- to stop.
pub data Farewell : Type 0 where
  closes : Connection → Farewell
  leaves : Connection → Farewell
  stops : Farewell

unfoldable pub destroy : Bool → TcpClient → Farewell × TcpClient
destroy unique t = by t.connection
  where
    by : Option Connection → Farewell × TcpClient
    by none = (stops, record t { connector = Connector.stop t.connector })
    by (some c) = ((if unique then closes c else leaves c), t)
