-- ===== src/TcpClient/Runs.antt =====
-- net/tcp_client.cc: the calls of a client and of its connector in any order.
use ccnet.Prelude.{
  ℕ, suc, ◌+◌, ◌≡◌, refl, sym, ap, ap₂, subst, ◌∙◌, inl, inr, Bool, true, false, ◌&&◌, none, arith,
  ltb, ◌==◌, Bool-cases, Option-cases, length,
}
use ccnet.Prelude.Outcome.{ok}
use ccnet.Connector.{Connector, is_connecting, connected}
use ccnet.Connector
use ccnet.Connector.Sound.{IsSound, start_in_loop-Sound}
use ccnet.Connector.Sockets.{stop_in_loop-Sound, handle_error-Sound, handle_write-Sound}
use ccnet.Connector.Runs.{step, step-Sound, create-IsSound}
use ccnet.Connector.Runs
use ccnet.Connector.Handed.{
  Quiet, start_in_loop-Quiet, stop_in_loop-Quiet, handle_error-Quiet, handle_write-Gives,
}
use ccnet.TcpServer.{Connection}
use ccnet.TcpServer.Counts.{established_count, destroyed_count, one_if}
use ccnet.TcpClient.{
  TcpClient, create, enable_retry, with_connector, connect, disconnect, stop, handle_write,
  remove_connection,
}
use ccnet.TcpClient.Single.{
  sockets_of, IsSingle, Sound-ok, held_count, Quiet-Fits, ok-injective, not_failed,
  with_connector-IsSingle, writes-IsSingle, restart-Fits, removed-IsSingle,
}

infix 40 ◌⟶◌
-- A call that returns: of the owner, of a connection that closes, or of the connector by its loop,
-- which does not reset the channel during an attempt.
pub data ◌⟶◌ : TcpClient → TcpClient → Type 0 where
  retries : (t : TcpClient) → t ⟶ enable_retry t
  connects : (t u : TcpClient) (in_loop : Bool) (e : ℕ) → connect in_loop e t ≡ ok u → t ⟶ u
  disconnects : (t : TcpClient) → t ⟶ disconnect t
  stops : (t : TcpClient) → t ⟶ stop t
  removes : (t u : TcpClient) (e : ℕ) (c : Connection) → remove_connection e c t ≡ ok u → t ⟶ u
  starts :
      (t u : TcpClient) (e : ℕ)
      → with_connector t (Connector.start_in_loop e t.connector) ≡ ok u
      → t ⟶ u
  gives_up :
      (t u : TcpClient) → with_connector t (Connector.stop_in_loop t.connector) ≡ ok u → t ⟶ u
  resets :
      (t : TcpClient)
      → is_connecting t.connector.state ≡ false
      → t ⟶ record t { connector = Connector.reset_channel t.connector }
  fails : (t u : TcpClient) → with_connector t (Connector.handle_error t.connector) ≡ ok u → t ⟶ u
  writes :
      (t u : TcpClient) (err : ℕ) (self_connect : Bool)
      → handle_write err self_connect t ≡ ok u
      → t ⟶ u

module _ (t u : TcpClient) (h : IsSingle t) where
  connects-IsSingle : (in_loop : Bool) (e : ℕ) → connect in_loop e t ≡ ok u → IsSingle u
  unfolding connect Connector.start Connector.queue step
  connects-IsSingle b e g =
      with_connector-IsSingle (record t { connect = true }) u _
        (record {
          sound = h.sound;
          busy = h.busy;
          numbered = h.numbered;
          sockets = h.sockets;
          once = h.once;
          lives = h.lives;
        })
        (step-Sound t.connector (Runs.starts b e) h.sound tt) (Quiet-Fits t _ h (quiet b)) g
    where
      quiet : (b : Bool) → Quiet t.connector (Connector.start b e t.connector)
      quiet true = start_in_loop-Quiet e (record t.connector { connect = true })
      quiet false = (refl, λ f. f)

  restarts-IsSingle :
      (e : ℕ) (v : TcpClient)
      → IsSingle v
      → v.connection ≡ none
      → is_connecting v.connector.state ≡ false
      → with_connector v (Connector.restart e v.connector) ≡ ok u
      → IsSingle u
  unfolding Connector.restart step
  restarts-IsSingle e v k free due g =
      with_connector-IsSingle v u _ k (step-Sound v.connector (Runs.restarts e) k.sound due)
        (restart-Fits e v free _ (start_in_loop-Quiet e _)) g

  removes-IsSingle : (e : ℕ) (c : Connection) → remove_connection e c t ≡ ok u → IsSingle u
  unfolding remove_connection
  removes-IsSingle e c g = elim (Option-cases t.connection) [
    | inl n ↦ absurd (not_failed u (simp n at g))
    | inr (d, s) ↦ elim (Bool-cases (d.id == c.id)) [
      | inr n ↦ absurd (not_failed u (simp (s, n) at g))
      | inl same ↦
          let k = removed-IsSingle c d t h s same in
          elim (Bool-cases (t.retry && t.connect)) [
            | inl r ↦
                restarts-IsSingle e _ k refl (ap is_connecting (h.busy d s))
                  (simp (s, same, r) at g)
            | inr r ↦ subst IsSingle (ok-injective _ u (simp (s, same, r) at g)) k
          ]
    ]
  ]

same_parts :
    (t u : TcpClient)
    → IsSingle t
    → u.connector ≡ t.connector
    → u.connection ≡ t.connection
    → u.next_conn_id ≡ t.next_conn_id
    → u.functors ≡ t.functors
    → IsSingle u
same_parts t u h e f g i = record {
  sound = subst IsSound (sym e) h.sound;
  busy = λ c k. ap (λ (d : Connector). d.state) e ∙ h.busy c (sym f ∙ k);
  numbered = g ∙ h.numbered ∙ ap (λ (d : Connector). suc (length d.handed)) (sym e);
  sockets = ap sockets_of i ∙ h.sockets ∙ ap (λ (d : Connector). d.handed) (sym e);
  once = λ k. ap (established_count k) i ∙ h.once k ∙ ap (λ n. one_if (ltb 0 k && ltb k n)) (sym g);
  lives = λ k.
      ap₂ (λ x y. x + y) (ap (destroyed_count k) i) (ap (held_count k) f)
      ∙ h.lives k
      ∙ ap (established_count k) (sym i);
}

disconnects-IsSingle : (t : TcpClient) → IsSingle t → IsSingle (disconnect t)
unfolding disconnect
disconnects-IsSingle t h = elim (Option-cases t.connection) [
  | inl n ↦ simp n (same_parts t _ h refl (sym n) refl refl)
  | inr (c, s) ↦ simp s (same_parts t _ h refl (sym s) refl refl)
]

step-IsSingle : {t u : TcpClient} → t ⟶ u → IsSingle t → IsSingle u
step-IsSingle (retries t) h = unfold enable_retry in same_parts t _ h refl refl refl refl
step-IsSingle (connects t u b e g) h = connects-IsSingle t u h b e g
step-IsSingle (disconnects t) h = disconnects-IsSingle t h
step-IsSingle (stops t) h =
    unfold stop Connector.stop Connector.queue in
    record {
      sound = Sound-ok _ (unfold step in step-Sound t.connector Runs.stops h.sound tt);
      busy = h.busy;
      numbered = h.numbered;
      sockets = h.sockets;
      once = h.once;
      lives = h.lives;
    }
step-IsSingle (removes t u e c g) h = removes-IsSingle t u h e c g
step-IsSingle (starts t u e g) h =
    with_connector-IsSingle t u _ h (start_in_loop-Sound e t.connector h.sound)
      (Quiet-Fits t _ h (start_in_loop-Quiet e t.connector)) g
step-IsSingle (gives_up t u g) h =
    with_connector-IsSingle t u _ h (stop_in_loop-Sound t.connector h.sound)
      (Quiet-Fits t _ h (stop_in_loop-Quiet t.connector)) g
step-IsSingle (resets t due) h =
    unfold Connector.reset_channel in
    record {
      sound = Sound-ok _ (unfold step in step-Sound t.connector Runs.resets h.sound due);
      busy = h.busy;
      numbered = h.numbered;
      sockets = h.sockets;
      once = h.once;
      lives = h.lives;
    }
step-IsSingle (fails t u g) h =
    with_connector-IsSingle t u _ h (handle_error-Sound t.connector h.sound)
      (Quiet-Fits t _ h (handle_error-Quiet t.connector)) g
step-IsSingle (writes t u err b g) h =
    writes-IsSingle t u _ h (handle_write-Sound err b t.connector h.sound)
      (handle_write-Gives err b t.connector) (unfold handle_write in g)

pub data Run : TcpClient → TcpClient → Type 0 where
  rests : (t : TcpClient) → Run t t
  goes_on : {t u v : TcpClient} → t ⟶ u → Run u v → Run t v

create-IsSingle : IsSingle create
unfolding create established_count destroyed_count held_count sockets_of Connector.create
create-IsSingle = record {
  sound = create-IsSound;
  busy = λ c e. absurd cc;
  numbered = refl;
  sockets = refl;
  once = λ k. ground arith;
  lives = λ k. refl;
}

run_from : {t u : TcpClient} → IsSingle t → Run t u → IsSingle u
run_from h (rests t) = h
run_from h (goes_on s r) = run_from (step-IsSingle s h) r

-- After any calls of a new client and its connector that return, where the channel is not reset during
-- an attempt: the connector is sound and not in an attempt while a connection is held; the sockets of
-- the connections that were established are those that it handed over, in that order; each connection
-- is established once; and each is destroyed once unless it is the one that is held.
pub run-IsSingle : {t : TcpClient} → Run create t → IsSingle t
run-IsSingle r = run_from create-IsSingle r
