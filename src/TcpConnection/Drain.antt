-- ===== src/TcpConnection/Drain.antt =====
-- net/tcp_connection.cc: `handleWrite` and the bytes that wait.
use ccnet.Prelude.{
  ℕ, ◌+◌, ◌≤◌, ◌<◌, max, ◌≡◌, refl, sym, ap, ap₂, subst, ◌∙◌, ◌⊎◌, inl, inr, true, false, [], ◌++◌,
  append-nil, append_assoc, arith, ltb, ◌==◌, if◌then◌else◌, Bool-cases, length, take, drop,
}
use ccnet.Prelude.Outcome.{ok}
use ccnet.Prelude.{take-append-drop}
use ccnet.Buffer.{retrieve, readable_bytes, peeked, cheap_prepend}
use ccnet.Buffer.Window.{readable_bytes-eq, IsValid, contents, length-contents}
use ccnet.Buffer.Operations.{Leaves, retrieve-Leaves}
use ccnet.Channel.{change}
use ccnet.TcpConnection.{
  TcpConnection, WriteReply, wrote, write_failed, update, queue, shutdown_in_loop, drained,
  handle_write,
}
use ccnet.TcpConnection.Stream.{IsLive, stream, Carries, IsTaken, nothing}

-- What `drained` leaves alone, and that it waits no longer.
drained_lem :
    (d : TcpConnection)
    → ((drained d).output ≡ d.output)
      × ((drained d).sent ≡ d.sent)
      × ((drained d).state ≡ d.state)
      × ((drained d).events.writing ≡ false)
unfolding drained shutdown_in_loop update queue change
drained_lem d = (ground arith, ground arith, ground arith, ground arith)

module _ (c : TcpConnection) (live : IsLive c) (n : ℕ) (taken : n ≤ readable_bytes c.output) where
  taken_out : Leaves c.output (drop n (contents c.output)) (retrieve c.output n)
  taken_out = retrieve-Leaves c.output n live.valid taken

  abbrev shorter : TcpConnection
  shorter = record c { output = taken_out.result; sent = c.sent ++ take n (peeked c.output) }

  piece : peeked c.output ≡ contents c.output
  unfolding peeked
  piece = rw (readable_bytes-eq c.output live.valid) refl

  same_stream : stream shorter ≡ stream c ++ []
  same_stream =
      ap₂ (λ xs ys. (c.sent ++ take n xs) ++ ys) piece taken_out.holds
      ∙ append_assoc c.sent (take n (contents c.output)) (drop n (contents c.output))
      ∙ ap (λ xs. c.sent ++ xs) (take-append-drop n (contents c.output))
      ∙ sym (append-nil (stream c))

  -- The connection after the bytes have gone, without the interest and with what follows from it.
  after_write :
      (d : TcpConnection)
      → d.output ≡ taken_out.result
      → d.sent ≡ shorter.sent
      → d.state ≡ c.state
      → (d.events.writing ≡ false → contents taken_out.result ≡ [])
      → (d.events.writing ≡ true → 0 < length (contents taken_out.result))
      → Carries c [] (ok d)
  after_write d o s t idle busy = record {
    result = d;
    returns = refl;
    live = record {
      valid = subst IsValid (sym o) taken_out.valid;
      idle = λ e. ap contents o ∙ idle e;
      busy = λ e. subst (λ b. 0 < length (contents b)) (sym o) (busy e);
    };
    accepted = ap₂ (λ a b. a ++ contents b) s o ∙ same_stream;
    same_state = t;
    no_later =
        subst (λ b. max cheap_prepend b.writer_index ≤ max cheap_prepend c.output.writer_index + 0)
          (sym o) (omega (arith, taken_out.no_later));
  }

  left_over : length (contents taken_out.result) ≡ readable_bytes taken_out.result
  left_over = length-contents taken_out.result taken_out.valid

  drained-Carries : contents taken_out.result ≡ [] → Carries c [] (ok (drained shorter))
  drained-Carries empty =
      let (o, s, t, w) = drained_lem shorter in
      after_write (drained shorter) o s t (λ _. empty) (λ e. absurd cc)

  wrote_eq :
      c.events.writing ≡ true
      → ltb 0 n ≡ true
      → handle_write c (wrote n)
        ≡ ok (if readable_bytes taken_out.result == 0 then drained shorter else shorter)
  unfolding handle_write
  wrote_eq w e = simp (w, e, taken_out.returns)

  none_eq : ltb 0 n ≡ false → handle_write c (wrote n) ≡ ok c
  unfolding handle_write
  none_eq e = ground arith

  unwaited_eq : c.events.writing ≡ false → handle_write c (wrote n) ≡ ok c
  unfolding handle_write
  unwaited_eq e = simp e

  unchanged : Carries c [] (ok c)
  unchanged = record {
    result = c;
    returns = refl;
    live = live;
    accepted = sym (append-nil (stream c));
    same_state = refl;
    no_later = omega arith;
  }

  wrote-Carries : Carries c [] (handle_write c (wrote n))
  wrote-Carries = elim (Bool-cases c.events.writing) [
    | inr w ↦ subst (Carries c []) (sym (unwaited_eq w)) unchanged
    | inl w ↦ elim (Bool-cases (ltb 0 n)) [
      | inr e ↦ subst (Carries c []) (sym (none_eq e)) unchanged
      | inl e ↦
          subst (Carries c []) (sym (wrote_eq w e))
            (by (Bool-cases (readable_bytes taken_out.result == 0)) w)
    ]
  ]
    where
      by :
          (readable_bytes taken_out.result == 0 ≡ true)
            ⊎ (readable_bytes taken_out.result == 0 ≡ false)
          → c.events.writing ≡ true
          → Carries c []
              (ok (if readable_bytes taken_out.result == 0 then drained shorter else shorter))
      by (inl e) w =
          rw e (drained-Carries (nothing (contents taken_out.result) (ground (arith, left_over))))
      by (inr e) w =
          rw e
            (after_write shorter refl refl refl (λ f. absurd cc) (λ _. ground (arith, left_over)))

-- `handleWrite` sends from the front of what waits, and nothing twice: on a live connection the
-- stream stays as it was, for every answer that takes no more than what waits.
pub handle_write-Carries :
    (c : TcpConnection)
    → IsLive c
    → (reply : WriteReply) → IsTaken (readable_bytes c.output) reply
    → Carries c [] (handle_write c reply)
unfolding handle_write
handle_write-Carries c live (wrote n) taken = wrote-Carries c live n taken
handle_write-Carries c live (write_failed e) taken = unchanged c live 0 (omega arith)
