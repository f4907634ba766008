-- ===== src/TcpServer/Serving.antt =====
-- net/tcp_server.cc: which connections the map holds, and what the handlers do to them.
use ccnet.Prelude.{
  ℕ, zero, suc, ◌+◌, ◌≤◌, ◌<◌, ◌≡◌, refl, sym, ap, subst, ◌∙◌, inl, inr, Bool, true, false, ◌&&◌,
  some, List, [], ◌∷◌, ◌++◌, arith, ltb, leb, ◌==◌, if◌then◌else◌, ==_iff, Bool-cases, length,
  get_elem?,
}
use ccnet.Prelude.Outcome.{ok}
use ccnet.LoopPool.{LoopPool, get_next_loop, next_loop, loop_at}
use ccnet.TcpServer.{
  Connection, established, destroyed, TcpServer, assign, erase, count, new_connection,
  remove_connection_in_loop, remove_connection,
}
use ccnet.TcpServer.Counts.{
  established_count, destroyed_count, one_if, established_more, destroyed_more, count-assign,
  count-erase, count-append, count_cons, count_none,
}

-- A pool that was started and whose next loop is there.
pub record IsReady (p : LoopPool) : Type 0 where
  pub up : p.started ≡ true
  pub place : 0 < length p.loops → p.next < length p.loops

there_is : (xs : List ℕ) (i : ℕ) → i < length xs → (x : ℕ) × (get_elem? xs i ≡ some x)
there_is [] i h = absurd (omega arith)
there_is (y ∷ ys) zero h = (y, refl)
there_is (y ∷ ys) (suc i) h = there_is ys i (omega arith)

get_next_loop-IsReady :
    (p : LoopPool)
    → IsReady p
    → (l : ℕ) × (q : LoopPool) × (get_next_loop p ≡ ok (l, q)) × IsReady q
unfolding get_next_loop next_loop loop_at
get_next_loop-IsReady p h = by p.loops refl
  where
    next_place : (n i : ℕ) → i < n → (if leb n (suc i) then 0 else suc i) < n
    next_place n i k = ground arith

    by :
        (ls : List ℕ)
        → p.loops ≡ ls
        → (l : ℕ) × (q : LoopPool) × (get_next_loop p ≡ ok (l, q)) × IsReady q
    by [] f = (p.base_loop, p, simp (h.up, f) refl, h)
    by (l ∷ ls) f =
        let k : p.next < length p.loops = h.place (omega (arith, ap length f)) in
        let (x, e) = there_is p.loops p.next k in
        let g = ap (λ ys. get_elem? ys p.next) (sym f) ∙ e in
        let n = ap (λ ys. if leb (length ys) (suc p.next) then 0 else suc p.next) f in
        (
          x,
          record p { next = if leb (length p.loops) (suc p.next) then 0 else suc p.next },
          simp (h.up, f, g) refl,
          record { up = h.up; place = λ o. next_place (length p.loops) p.next k },
        )

-- The connections that were established and not destroyed are those in the map, and the removals
-- that wait are of such.
pub record IsServing (s : TcpServer) : Type 0 where
  pub ready : IsReady s.pool
  pub once : (k : ℕ) → established_count k s.functors ≡ one_if (ltb 0 k && ltb k s.next_conn_id)
  pub lives :
      (k : ℕ)
      → count k s.connections + destroyed_count k s.functors ≡ established_count k s.functors
  pub waits : (k : ℕ) → count k s.removals ≤ count k s.connections
  pub from_one : 0 < s.next_conn_id

at_most_one : (s : TcpServer) → IsServing s → (k : ℕ) → count k s.connections ≤ 1
at_most_one s h k = ground (arith, h.lives k, h.once k)

pub new_connection-IsServing :
    (fd : ℕ) (s : TcpServer)
    → IsServing s
    → (t : TcpServer) × (new_connection fd s ≡ ok t) × IsServing t
unfolding new_connection
new_connection-IsServing fd s h =
    let (l, q, e, r) = get_next_loop-IsReady s.pool h.ready in
    let c : Connection = record { id = s.next_conn_id; sockfd = fd; io_loop = l } in
    let absent : count c.id s.connections ≡ 0 =
      omega (arith, h.lives c.id, h.once c.id ∙ new_number s.next_conn_id) in
    (
      record s {
        pool = q;
        next_conn_id = suc s.next_conn_id;
        connections = assign c s.connections;
        functors = s.functors ++ (established c ∷ []);
      },
      simp e refl,
      record {
        ready = r;
        once = λ k.
            (established_more k s.functors c).0
            ∙ ap (λ n. n + one_if (s.next_conn_id == k)) (h.once k)
            ∙ next_number k s.next_conn_id h.from_one;
        lives = λ k. omega (
          arith,
          h.lives k,
          count-assign k c s.connections absent,
          established_more k s.functors c,
        );
        waits = λ k. omega (arith, h.waits k, count-assign k c s.connections absent);
        from_one = omega arith;
      },
    )
  where
    new_number : (n : ℕ) → one_if (ltb 0 n && ltb n n) ≡ 0
    new_number n = ground arith

    next_number :
        (k n : ℕ)
        → 0 < n
        → one_if (ltb 0 k && ltb k n) + one_if (n == k) ≡ one_if (ltb 0 k && ltb k (suc n))
    next_number k n o = ground arith

-- A removal in the loop of a connection that is in the map and for which no other removal waits.
remove_in_loop-IsServing :
    (c : Connection) (s : TcpServer)
    → IsServing s
    → count c.id s.connections ≡ 1
    → count c.id s.removals ≡ 0
    → (t : TcpServer) × (remove_connection_in_loop c s ≡ ok t) × IsServing t
unfolding remove_connection_in_loop
remove_in_loop-IsServing c s h e f = (
  record s { connections = erase c.id s.connections; functors = s.functors ++ (destroyed c ∷ []) },
  simp e refl,
  record {
    ready = h.ready;
    once = λ k. (destroyed_more k s.functors c).1 ∙ h.once k;
    lives = λ k. grind (
      arith,
      h.lives k,
      count-erase k c.id s.connections,
      destroyed_more k s.functors c,
      e,
      at_same k,
    );
    waits = λ k. grind (arith, h.waits k, count-erase k c.id s.connections, f, at_same k);
    from_one = h.from_one;
  },
)
  where
    at_same : (k : ℕ) → (c.id == k) ≡ true → (count k s.connections ≡ 1) × (count k s.removals ≡ 0)
    at_same k g =
        let i = (==_iff c.id k).0 g in
        (subst (λ j. count j s.connections ≡ 1) i e, subst (λ j. count j s.removals ≡ 0) i f)

pub remove_connection-IsServing :
    (b : Bool) (c : Connection) (s : TcpServer)
    → IsServing s
    → count c.id s.connections ≡ 1
    → count c.id s.removals ≡ 0
    → (t : TcpServer) × (remove_connection b c s ≡ ok t) × IsServing t
unfolding remove_connection
remove_connection-IsServing true c s h e f = remove_in_loop-IsServing c s h e f
remove_connection-IsServing false c s h e f = (
  record s { removals = s.removals ++ (c ∷ []) },
  refl,
  record {
    ready = h.ready;
    once = h.once;
    lives = h.lives;
    waits = λ k. waits_more k;
    from_one = h.from_one;
  },
)
  where
    waits_more : (k : ℕ) → count k (s.removals ++ (c ∷ [])) ≤ count k s.connections
    waits_more k = elim (Bool-cases (c.id == k)) [
      | inl g ↦
          let i = (==_iff c.id k).0 g in
          subst (λ j. count j (s.removals ++ (c ∷ [])) ≤ count j s.connections) i
            (ground (
              arith,
              e,
              f,
              count-append c.id s.removals (c ∷ []),
              count_cons c.id c [],
              count_none c.id,
            ))
      | inr g ↦
          ground (
            arith,
            g,
            h.waits k,
            count-append k s.removals (c ∷ []),
            count_cons k c [],
            count_none k,
          )
    ]

-- The first of the removals that wait.
pub removal-IsServing :
    (c : Connection) (cs : List Connection) (s : TcpServer)
    → IsServing s
    → s.removals ≡ c ∷ cs
    → (t : TcpServer) × (remove_connection_in_loop c (record s { removals = cs }) ≡ ok t)
      × IsServing t
unfolding count
removal-IsServing c cs s h e =
    remove_in_loop-IsServing c (record s { removals = cs }) rest
      (omega (arith, at_most_one s h c.id, own, h.waits c.id))
      (omega (arith, at_most_one s h c.id, own, h.waits c.id))
  where
    own : count c.id s.removals ≡ suc (count c.id cs)
    own = ap (count c.id) e ∙ ground (arith, count_cons c.id c cs)

    rest : IsServing (record s { removals = cs })
    rest = record {
      ready = h.ready;
      once = h.once;
      lives = h.lives;
      waits = λ k. ground (arith, h.waits k, ap (count k) e);
      from_one = h.from_one;
    }
