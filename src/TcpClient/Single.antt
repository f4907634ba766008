-- ===== src/TcpClient/Single.antt =====
-- net/tcp_client.cc: the connections of a client one after the other, and the calls of its connector.
use ccnet.Prelude.{
  ℕ, suc, ◌+◌, ◌<◌, ◌≡◌, refl, sym, ap, subst, ◌∙◌, ◌≢◌, inl, inr, true, ◌&&◌, Option, none, some,
  List, [], ◌∷◌, ◌++◌, arith, ltb, ◌==◌, ==_iff, Option-cases, length,
}
use ccnet.Prelude.Outcome.{Outcome, ok, assert_failed, length_error, ◌>>=◌, value_or}
use ccnet.Connector.{Connector, State, connected, is_connecting}
use ccnet.Connector
use ccnet.Connector.Sound.{IsSound, Sound}
use ccnet.Connector.Handed.{Quiet, Gives}
use ccnet.TcpServer.{Connection, Functor, established, destroyed}
use ccnet.TcpServer.Counts.{
  established_count, destroyed_count, one_if, established_more, destroyed_more,
}
use ccnet.TcpClient.{TcpClient, with_connector, new_connection, handed_over, on_handed}

-- How often the connection of a number is held: once or not.
unfoldable pub held_count : ℕ → Option Connection → ℕ
held_count k none = 0
held_count k (some c) = one_if (c.id == k)

-- The sockets of the connections that were established, from the newest on.
unfoldable pub sockets_of : List Functor → List ℕ
sockets_of [] = []
sockets_of (established c ∷ fs) = sockets_of fs ++ (c.sockfd ∷ [])
sockets_of (destroyed c ∷ fs) = sockets_of fs

sockets_established :
    (fs : List Functor) (c : Connection)
    → sockets_of (fs ++ (established c ∷ [])) ≡ c.sockfd ∷ sockets_of fs
unfolding sockets_of
sockets_established [] c = refl
sockets_established (established d ∷ fs) c =
    ap (λ xs. xs ++ (d.sockfd ∷ [])) (sockets_established fs c)
sockets_established (destroyed d ∷ fs) c = sockets_established fs c

sockets_destroyed :
    (fs : List Functor) (c : Connection) → sockets_of (fs ++ (destroyed c ∷ [])) ≡ sockets_of fs
unfolding sockets_of
sockets_destroyed [] c = refl
sockets_destroyed (established d ∷ fs) c = ap (λ xs. xs ++ (d.sockfd ∷ [])) (sockets_destroyed fs c)
sockets_destroyed (destroyed d ∷ fs) c = sockets_destroyed fs c

-- The sockets of the connections are those that the connector handed over, in order; each connection
-- was established once and is destroyed unless it is held; one that is held keeps the connector from
-- its next attempt.
pub record IsSingle (t : TcpClient) : Type 0 where
  pub sound : IsSound t.connector
  pub busy : (c : Connection) → t.connection ≡ some c → t.connector.state ≡ connected
  pub numbered : t.next_conn_id ≡ suc (length t.connector.handed)
  pub sockets : sockets_of t.functors ≡ t.connector.handed
  pub once : (k : ℕ) → established_count k t.functors ≡ one_if (ltb 0 k && ltb k t.next_conn_id)
  pub lives :
      (k : ℕ)
      → destroyed_count k t.functors + held_count k t.connection ≡ established_count k t.functors

-- A call of the connector that hands no socket over and leaves it connected where a connection is held.
abbrev pub Fits : TcpClient → Outcome Connector → Type 0
Fits t (ok d) =
    (d.handed ≡ t.connector.handed)
    × ((c : Connection) → t.connection ≡ some c → d.state ≡ connected)
Fits t assert_failed = Unit
Fits t length_error = Unit

pub Quiet-Fits :
    (t : TcpClient) (r : Outcome Connector) → IsSingle t → Quiet t.connector r → Fits t r
Quiet-Fits t (ok d) h (e, f) = (e, λ c g. f (h.busy c g))
Quiet-Fits t assert_failed h q = tt
Quiet-Fits t length_error h q = tt

pub ok-injective : {A : Type 0} (a b : A) → ok a ≡ ok b → a ≡ b
ok-injective a b e = ap (value_or a) e

pub not_failed : {A : Type 0} (a : A) → assert_failed ≡ ok a → ⊥
not_failed a e = cc

pub Sound-ok : (d : Connector) → Sound (ok d) → IsSound d
Sound-ok d (inl e) = absurd (not_failed d (sym e))
Sound-ok d (inr (c, e, h)) = subst IsSound (ok-injective c d (sym e)) h

pub with_connector-IsSingle :
    (t u : TcpClient) (r : Outcome Connector)
    → IsSingle t
    → Sound r
    → Fits t r
    → with_connector t r ≡ ok u
    → IsSingle u
with_connector-IsSingle t u (ok d) h s (e, f) g =
    subst IsSingle (ok-injective (record t { connector = d }) u g) (record {
      sound = Sound-ok d s;
      busy = f;
      numbered = h.numbered ∙ ap (λ xs. suc (length xs)) (sym e);
      sockets = h.sockets ∙ sym e;
      once = h.once;
      lives = h.lives;
    })
with_connector-IsSingle t u assert_failed h s f g = absurd (not_failed u g)
with_connector-IsSingle t u length_error h s f g = absurd (cc)

handed_over-same : (xs : List ℕ) → handed_over xs xs ≡ none
unfolding handed_over
handed_over-same [] = refl
handed_over-same (x ∷ xs) = ground arith

handed_over-cons : (s : ℕ) (xs : List ℕ) → handed_over xs (s ∷ xs) ≡ some s
unfolding handed_over
handed_over-cons s xs = ground arith

one_more :
    (k n : ℕ)
    → 0 < n
    → one_if (ltb 0 k && ltb k n) + one_if (n == k) ≡ one_if (ltb 0 k && ltb k (suc n))
one_more k n h = ground arith

-- A new connection, where none is held.
new_connection-IsSingle :
    (s : ℕ) (t : TcpClient) (d : Connector)
    → IsSingle t
    → t.connection ≡ none
    → IsSound d
    → d.handed ≡ s ∷ t.connector.handed
    → d.state ≡ connected
    → IsSingle (new_connection s (record t { connector = d }))
unfolding new_connection held_count
new_connection-IsSingle s t d h free sound e f =
    let conn : Connection = record { id = t.next_conn_id; sockfd = s; io_loop = 0 } in
    record {
      sound = sound;
      busy = λ c g. f;
      numbered = ap suc (h.numbered ∙ ap length (sym e));
      sockets = sockets_established t.functors conn ∙ ap (λ xs. s ∷ xs) h.sockets ∙ sym e;
      once = λ k.
          (established_more k t.functors conn).0
          ∙ ap (λ i. i + one_if (t.next_conn_id == k)) (h.once k)
          ∙ one_more k t.next_conn_id (omega (arith, h.numbered));
      lives = λ k. omega (
        arith,
        h.lives k,
        ap (held_count k) free,
        (established_more k t.functors conn).0,
        (established_more k t.functors conn).1,
      );
    }

connection_none : (t : TcpClient) → IsSingle t → t.connector.state ≢ connected → t.connection ≡ none
connection_none t h other = elim (Option-cases t.connection) [
  | inl e ↦ e
  | inr (c, e) ↦ absurd (other (h.busy c e))
]

pub writes-IsSingle :
    (t u : TcpClient) (r : Outcome Connector)
    → IsSingle t
    → Sound r
    → Gives t.connector r
    → (r >>= λ d.
        ok (on_handed (handed_over t.connector.handed d.handed) (record t { connector = d })))
      ≡ ok u
    → IsSingle u
unfolding on_handed
writes-IsSingle t u (ok d) h s (inl (e, f)) g =
    with_connector-IsSingle t u (ok d) h s (Quiet-Fits t (ok d) h (e, f)) (
      ap (λ o. ok (on_handed o (record t { connector = d })))
        (sym (handed_over-same t.connector.handed) ∙ ap (handed_over t.connector.handed) (sym e))
      ∙ g)
writes-IsSingle t u (ok d) h s (inr (x, e, f, other)) g =
    subst IsSingle
      (ok-injective _ u (
        ap (λ o. ok (on_handed o (record t { connector = d })))
          (sym (handed_over-cons x t.connector.handed)
            ∙ ap (handed_over t.connector.handed) (sym e))
        ∙ g))
      (new_connection-IsSingle x t d h (connection_none t h other) (Sound-ok d s) e f)
writes-IsSingle t u assert_failed h s q g = absurd (not_failed u g)
writes-IsSingle t u length_error h s q g = absurd cc

pub restart-Fits :
    (e : ℕ) (t : TcpClient)
    → t.connection ≡ none
    → (r : Outcome Connector)
    → Quiet
        (record t.connector {
          state = Connector.disconnected;
          retry_delay_ms = Connector.init_retry_delay_ms;
          connect = true;
        })
        r
    → Fits t r
restart-Fits e t free (ok d) (f, g) = (f, λ c k. absurd (none_some c (sym free ∙ k)))
  where
    none_some : (c : Connection) → none ≡ some c → ⊥
    none_some c k = cc
restart-Fits e t free assert_failed q = tt
restart-Fits e t free length_error q = tt

-- Only the connection that is held is removed.
pub removed-IsSingle :
    (c d : Connection) (t : TcpClient)
    → IsSingle t
    → t.connection ≡ some d
    → (d.id == c.id) ≡ true
    → IsSingle (record t { connection = none; functors = t.functors ++ (destroyed c ∷ []) })
unfolding held_count
removed-IsSingle c d t h e same = record {
  sound = h.sound;
  busy = λ x k. absurd (none_some x k);
  numbered = h.numbered;
  sockets = sockets_destroyed t.functors c ∙ h.sockets;
  once = λ k. (destroyed_more k t.functors c).1 ∙ h.once k;
  lives = λ k. omega (
    arith,
    h.lives k,
    ap (held_count k) e,
    (destroyed_more k t.functors c).0,
    (destroyed_more k t.functors c).1,
    ap (λ i. one_if (i == k)) ((==_iff d.id c.id).0 same),
  );
}
  where
    none_some : (c : Connection) → none ≡ some c → ⊥
    none_some c k = cc
