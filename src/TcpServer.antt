-- ===== src/TcpServer.antt =====
-- net/tcp_server.cc and net/acceptor.cc: the connections of a server. A connection is known by the
-- number in its name. Functors handed to the loops of the connections are a list in the state, and
-- so are the removals that wait in the loop of the server.
pub mod Counts
pub mod Serving
pub mod Runs
mod Tests
use ccnet.Prelude.{
  ℕ, suc, ◌+◌, ◌≡◌, ◌==◌, if◌then◌else◌, Bool, true, false, not, Option, none, some, List, [], ◌∷◌,
  ◌++◌, length,
}
use ccnet.Prelude.Outcome.{Outcome, ok, ◌>>=◌, ◌>>◌, assert}
use ccnet.LoopPool.{LoopPool, get_next_loop}

pub record Connection : Type 0 where
  pub id : ℕ
  pub sockfd : ℕ
  pub io_loop : ℕ

-- `TcpConnection::connectEstablished` and `connectDestroyed`, handed to the loop of a connection.
pub data Functor : Type 0 where
  established : Connection → Functor
  destroyed : Connection → Functor

pub record TcpServer : Type 0 where
  pub pool : LoopPool
  pub started : Bool
  pub listening : Bool
  pub next_conn_id : ℕ
  pub connections : List Connection
  pub functors : List Functor
  pub removals : List Connection

unfoldable pub create : ℕ → TcpServer
create loop = record {
  pool = record { base_loop = loop; loops = []; started = false; next = 0 };
  started = false;
  listening = false;
  next_conn_id = 1;
  connections = [];
  functors = [];
  removals = [];
}

-- `Acceptor::listen`.
unfoldable pub listen : TcpServer → TcpServer
listen s = record s { listening = true }

-- `threads` are the loops of the threads that the pool starts.
unfoldable pub start : List ℕ → TcpServer → Outcome TcpServer
start threads s = if s.started then ok s else (do
  assert (not s.pool.started)
  assert (not s.listening)
  ok (
      listen
        (record s { started = true; pool = record s.pool { started = true; loops = threads } })))

-- `connections_[connName] = conn`.
unfoldable pub assign : Connection → List Connection → List Connection
assign c [] = c ∷ []
assign c (d ∷ ds) = let rest = assign c ds in if d.id == c.id then c ∷ ds else d ∷ rest

unfoldable pub erase : ℕ → List Connection → List Connection
erase k [] = []
erase k (d ∷ ds) = let rest = erase k ds in if d.id == k then rest else d ∷ rest

unfoldable pub count : ℕ → List Connection → ℕ
count k [] = 0
count k (d ∷ ds) = let rest = count k ds in if d.id == k then suc rest else rest

unfoldable pub new_connection : ℕ → TcpServer → Outcome TcpServer
new_connection sockfd s = do
  (io_loop, pool) ← get_next_loop s.pool
  let conn : Connection = record { id = s.next_conn_id; sockfd = sockfd; io_loop = io_loop }
  ok (record s {
    pool = pool;
    next_conn_id = suc s.next_conn_id;
    connections = assign conn s.connections;
    functors = s.functors ++ (established conn ∷ []);
  })

unfoldable pub remove_connection_in_loop : Connection → TcpServer → Outcome TcpServer
remove_connection_in_loop conn s = do
  assert (count conn.id s.connections == 1)
  ok (record s {
    connections = erase conn.id s.connections;
    functors = s.functors ++ (destroyed conn ∷ []);
  })

-- In the thread of the server's loop, or in that of the connection's.
unfoldable pub remove_connection : Bool → Connection → TcpServer → Outcome TcpServer
remove_connection in_loop_thread conn s =
    if in_loop_thread
    then remove_connection_in_loop conn s
    else ok (record s { removals = s.removals ++ (conn ∷ []) })

abbrev pub each_destroyed : List Connection → List Functor
each_destroyed [] = []
each_destroyed (c ∷ cs) = destroyed c ∷ each_destroyed cs

-- `~TcpServer`.
unfoldable pub destroy : TcpServer → TcpServer
destroy s = record s { connections = []; functors = s.functors ++ each_destroyed s.connections }

-- What `Acceptor::handleRead` did: the server got the descriptor, nobody wanted it and it was closed,
-- or there were too many, and one connection was taken and closed by way of the idle descriptor.
pub data Accepted : Type 0 where
  handed closed refused nothing : Accepted

-- `connfd` is what `accept` returned, or nothing with whether `errno` was EMFILE.
unfoldable pub handle_read : Bool → Option ℕ → Bool → Accepted
handle_read has_callback (some connfd) emfile = if has_callback then handed else closed
handle_read has_callback none emfile = if emfile then refused else nothing
