-- ===== src/TcpServer/Runs.antt =====
-- net/tcp_server.cc: the steps of a server, from its start on.
use ccnet.Prelude.{
  ℕ, ◌≡◌, refl, sym, ap, subst, ◌∙◌, if◌then◌else◌, Bool, List, [], ◌∷◌, arith, ltb, ◌&&◌,
}
use ccnet.Prelude.Outcome.{ok, value_or}
use ccnet.TcpServer.{
  Connection, TcpServer, create, start, listen, count, new_connection, remove_connection_in_loop,
  remove_connection, destroy, each_destroyed,
}
use ccnet.TcpServer.Counts.{
  established_count, destroyed_count, established_count-append, destroyed_count-append,
}
use ccnet.TcpServer.Serving.{
  IsServing, new_connection-IsServing, remove_connection-IsServing, removal-IsServing,
}

infix 40 ◌⟶◌
-- A connection is accepted; one that is in the map and has not closed yet closes, in its own thread
-- or in that of the server's loop; or a removal that waits is run.
pub data ◌⟶◌ : TcpServer → TcpServer → Type 0 where
  accepts : (s t : TcpServer) (sockfd : ℕ) → new_connection sockfd s ≡ ok t → s ⟶ t
  closes :
      (s t : TcpServer) (in_loop_thread : Bool) (c : Connection)
      → count c.id s.connections ≡ 1
      → count c.id s.removals ≡ 0
      → remove_connection in_loop_thread c s ≡ ok t
      → s ⟶ t
  removes :
      (s t : TcpServer) (c : Connection) (cs : List Connection)
      → s.removals ≡ c ∷ cs
      → remove_connection_in_loop c (record s { removals = cs }) ≡ ok t
      → s ⟶ t

ok-injective : {A : Type 0} (a b : A) → ok a ≡ ok b → a ≡ b
ok-injective a b e = ap (value_or a) e

step-IsServing : {s t : TcpServer} → s ⟶ t → IsServing s → IsServing t
step-IsServing (accepts s t fd e) h =
    let (u, f, i) = new_connection-IsServing fd s h in
    subst IsServing (ok-injective u t (sym f ∙ e)) i
step-IsServing (closes s t b c o p e) h =
    let (u, f, i) = remove_connection-IsServing b c s h o p in
    subst IsServing (ok-injective u t (sym f ∙ e)) i
step-IsServing (removes s t c cs o e) h =
    let (u, f, i) = removal-IsServing c cs s h o in subst IsServing (ok-injective u t (sym f ∙ e)) i

pub data Run : TcpServer → TcpServer → Type 0 where
  rests : (s : TcpServer) → Run s s
  goes_on : {s t u : TcpServer} → s ⟶ t → Run t u → Run s u

run_from : {s t : TcpServer} → IsServing s → Run s t → IsServing t
run_from h (rests s) = h
run_from h (goes_on s r) = run_from (step-IsServing s h) r

-- A server right after its `start`, whose assertions hold on a new server.
abbrev pub started : ℕ → List ℕ → TcpServer
started loop threads = value_or (create loop) (start threads (create loop))

none_yet : (k : ℕ) → ◌≡◌ {A = ℕ} 0 (if ltb 0 k && ltb k 1 then 1 else 0)
none_yet k = ground arith

started-IsServing : (loop : ℕ) (threads : List ℕ) → IsServing (started loop threads)
unfolding start create listen established_count destroyed_count count
started-IsServing loop threads = record {
  ready = record { up = refl; place = λ h. h };
  once = none_yet;
  lives = λ k. omega arith;
  waits = λ k. omega arith;
  from_one = omega arith;
}

all_destroyed :
    (k : ℕ) (cs : List Connection)
    → (destroyed_count k (each_destroyed cs) ≡ count k cs)
      × (established_count k (each_destroyed cs) ≡ 0)
unfolding destroyed_count established_count count
all_destroyed k [] = (refl, refl)
all_destroyed k (c ∷ cs) = (ground (arith, all_destroyed k cs), (all_destroyed k cs).1)

destroy_lem :
    (s : TcpServer) (k : ℕ)
    → IsServing s
    → destroyed_count k (destroy s).functors ≡ established_count k (destroy s).functors
unfolding destroy
destroy_lem s k h = omega (
  arith,
  h.lives k,
  all_destroyed k s.connections,
  destroyed_count-append k s.functors (each_destroyed s.connections),
  established_count-append k s.functors (each_destroyed s.connections),
)

-- The calls that a server takes in any state that it reaches, none of which fails an assertion.
unfoldable pub Goes : TcpServer → Type 0
Goes s =
    ((fd : ℕ) → (t : TcpServer) × (new_connection fd s ≡ ok t))
    × ((c : Connection) (cs : List Connection)
        → s.removals ≡ c ∷ cs
        → (t : TcpServer) × (remove_connection_in_loop c (record s { removals = cs }) ≡ ok t))
    × ((b : Bool) (c : Connection)
        → count c.id s.connections ≡ 1
        → count c.id s.removals ≡ 0
        → (t : TcpServer) × (remove_connection b c s ≡ ok t))

-- On a server that was started, after any connections accepted, closed once each, and removed:
-- each connection was established once, and is in the map until it is destroyed, once; no assertion
-- fails in what comes next; and the destructor destroys each connection that is left, once.
pub run-IsServing :
    (loop : ℕ) (threads : List ℕ) {s : TcpServer}
    → Run (started loop threads) s
    → IsServing s
      × Goes s
      × ((k : ℕ)
          → destroyed_count k (destroy s).functors ≡ established_count k (destroy s).functors)
unfolding Goes
run-IsServing loop threads {s = s} r =
    let h = run_from (started-IsServing loop threads) r in
    (
      h,
      (
        λ fd. let (t, e, i) = new_connection-IsServing fd s h in (t, e),
        λ c cs e. let (t, f, i) = removal-IsServing c cs s h e in (t, f),
        λ b c e f. let (t, g, i) = remove_connection-IsServing b c s h e f in (t, g),
      ),
      λ k. destroy_lem s k h,
    )
