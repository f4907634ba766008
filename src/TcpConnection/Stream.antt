-- ===== src/TcpConnection/Stream.antt =====
-- net/tcp_connection.cc: `send` and `handleWrite` together, and the bytes that go out.
use ccnet.Prelude.{
  ℕ, ◌+◌, ◌-◌, ◌≤◌, ◌<◌, max, ◌≡◌, refl, sym, ap, ap₂, subst, ◌∙◌, ◌≢◌, inl, inr, Bool, true, false,
  not, ◌&&◌, ◌||◌, List, [], ◌∷◌, ◌++◌, append-nil, append_assoc, arith, ltb, leb, ◌==◌,
  if◌then◌else◌, Bool-cases, length, take, drop, length-append, length-drop,
}
use ccnet.Prelude.Outcome.{Outcome, ok, ◌>>=◌}
use ccnet.Prelude.Size.{sub_size}
use ccnet.Prelude.{take_all, take-append-drop}
use ccnet.Buffer.{append, readable_bytes, cheap_prepend, max_size}
use ccnet.Buffer.Window.{IsValid, contents}
use ccnet.Buffer.Operations.{Appended, append_total}
use native.Mathlib.Decide.{dec_le}
use ccnet.Channel.{Interest, change, enable_writing}
use ccnet.TcpConnection.{
  TcpConnection, is_disconnected, WriteReply, wrote, write_failed, epipe, econnreset, update, queue,
  write_complete, high_water_mark, attempt_write, queue_rest, finish_send, send_in_loop,
}

-- The connection waits to write exactly while bytes wait in its output buffer.
pub record IsLive (c : TcpConnection) : Type 0 where
  pub valid : IsValid c.output
  pub idle : c.events.writing ≡ false → contents c.output ≡ []
  pub busy : c.events.writing ≡ true → 0 < length (contents c.output)

-- All bytes that were accepted: those that the kernel took and those that wait.
abbrev pub stream : TcpConnection → List ℕ
stream c = c.sent ++ contents c.output

-- The call returns a live connection that has accepted `xs` after what it had accepted.
pub record Carries (c : TcpConnection) (xs : List ℕ) (r : Outcome TcpConnection) : Type 0 where
  pub result : TcpConnection
  pub returns : r ≡ ok result
  pub live : IsLive result
  pub accepted : stream result ≡ stream c ++ xs
  pub same_state : result.state ≡ c.state
  pub no_later :
      max cheap_prepend result.output.writer_index
      ≤ max cheap_prepend c.output.writer_index + length xs

-- The answer to a write of `len` bytes: not more than that, or an error that does not end the stream.
abbrev pub IsTaken : ℕ → WriteReply → Type 0
IsTaken len (wrote n) = n ≤ len
IsTaken len (write_failed e) = (e ≢ epipe) × (e ≢ econnreset)

-- Where the bytes are, and the state, are all that `Carries` reads of the connection before.
from_Carries :
    (c d : TcpConnection) (xs : List ℕ) (r : Outcome TcpConnection)
    → d.output ≡ c.output
    → d.sent ≡ c.sent
    → d.state ≡ c.state
    → Carries d xs r
    → Carries c xs r
from_Carries c d xs r o s t h = record {
  result = h.result;
  returns = h.returns;
  live = h.live;
  accepted = h.accepted ∙ ap₂ (λ a b. (a ++ b) ++ xs) s (ap contents o);
  same_state = h.same_state ∙ t;
  no_later =
      subst
        (λ b.
          max cheap_prepend h.result.output.writer_index
          ≤ max cheap_prepend b.writer_index + length xs)
        o h.no_later;
}

-- The end of `sendInLoop`: the bytes are appended, and writing is waited for.
abbrev wait_for : TcpConnection → List ℕ → Outcome TcpConnection
wait_for d rest = do
  b ← append d.output rest
  let e : TcpConnection = record d { output = b }
  ok (if d.events.writing then e else update enable_writing e)

module _ (d : TcpConnection) (rest : List ℕ) (v : IsValid d.output) (some_left : 0 < length rest)
    (fits : max cheap_prepend d.output.writer_index + length rest ≤ max_size) where
  a : Appended d.output rest (append d.output rest)
  a = append_total d.output rest v (omega arith)

  abbrev waiting : TcpConnection
  waiting = record d { output = a.result }

  abbrev reached : TcpConnection
  reached = if d.events.writing then waiting else update enable_writing waiting

  some_wait : 0 < length (contents a.result)
  some_wait = rw a.holds (omega (arith, length-append (contents d.output) rest))

  wait_for-Carries : Carries d rest (wait_for d rest)
  unfolding update change
  wait_for-Carries = elim (Bool-cases d.events.writing) [
    | inl w ↦ record {
      result = waiting;
      returns = rw (a.returns, w) refl;
      live = record { valid = a.valid; idle = λ e. cc; busy = λ e. some_wait };
      accepted =
          ap (λ xs. d.sent ++ xs) a.holds ∙ sym (append_assoc d.sent (contents d.output) rest);
      same_state = refl;
      no_later = omega (arith, a.no_later);
    }
    | inr w ↦ record {
      result = update enable_writing waiting;
      returns = rw (a.returns, w) refl;
      live = record { valid = a.valid; idle = λ e. cc; busy = λ e. some_wait };
      accepted =
          ap (λ xs. d.sent ++ xs) a.holds ∙ sym (append_assoc d.sent (contents d.output) rest);
      same_state = refl;
      no_later = omega (arith, a.no_later);
    }
  ]

module _ (c : TcpConnection) (rest : List ℕ) (v : IsValid c.output) (some_left : 0 < length rest)
    (fits : max cheap_prepend c.output.writer_index + length rest ≤ max_size) where
  abbrev above : Bool
  above =
      leb c.mark (readable_bytes c.output + length rest)
      && ltb (readable_bytes c.output) c.mark
      && c.wants_high_water_mark

  queue_rest-Carries : Carries c rest (queue_rest c rest)
  unfolding queue_rest queue
  queue_rest-Carries = elim (Bool-cases above) [
    | inl e ↦ rw e (
        from_Carries c (queue (high_water_mark (readable_bytes c.output + length rest)) c) rest _
          refl refl refl (wait_for-Carries _ rest v some_left fits))
    | inr e ↦ rw e (wait_for-Carries c rest v some_left fits)
  ]

pub nothing : (xs : List ℕ) → length xs ≤ 0 → xs ≡ []
nothing [] h = refl
nothing (x ∷ xs) h = absurd (omega arith)

-- Nothing is left to send: the connection is as it was, but for the bytes that went out.
module _ (c : TcpConnection) (live : IsLive c) (free : c.events.writing ≡ false) (bytes : List ℕ)
    (n : ℕ) where
  abbrev gone : TcpConnection
  gone = record c { sent = c.sent ++ take n bytes }

  gone-stream : stream gone ≡ c.sent ++ take n bytes
  gone-stream = rw (live.idle free) (append-nil (c.sent ++ take n bytes))

  before_stream : stream c ≡ c.sent
  before_stream = rw (live.idle free) (append-nil c.sent)

  all_sent : length bytes ≤ n → stream gone ≡ stream c ++ bytes
  all_sent h =
      gone-stream
      ∙ ap (λ xs. c.sent ++ xs) (take_all n bytes h)
      ∙ ap (λ xs. xs ++ bytes) (sym before_stream)

  some_sent : stream gone ++ drop n bytes ≡ stream c ++ bytes
  some_sent =
      ap (λ xs. xs ++ drop n bytes) gone-stream
      ∙ append_assoc c.sent (take n bytes) (drop n bytes)
      ∙ ap (λ xs. c.sent ++ xs) (take-append-drop n bytes)
      ∙ ap (λ xs. xs ++ bytes) (sym before_stream)

module _ (c : TcpConnection) (live : IsLive c) (bytes : List ℕ)
    (fits : max cheap_prepend c.output.writer_index + length bytes ≤ max_size) where
  -- Nothing was written.
  none_sent : Carries c bytes (
      finish_send
        (record { connection = c; nwrote = 0; remaining = length bytes; fault_error = false })
        bytes)
  unfolding finish_send
  none_sent = elim (Bool-cases (ltb 0 (length bytes))) [
    | inl e ↦ rw (leb_self, e) (queue_rest-Carries c bytes live.valid (ground arith) fits)
    | inr e ↦
        let empty : bytes ≡ [] = nothing bytes (ground arith) in
        rw (leb_self, e)
          (record {
            result = c;
            returns = refl;
            live = live;
            accepted = sym (ap (λ xs. stream c ++ xs) empty ∙ append-nil (stream c));
            same_state = refl;
            no_later = omega arith;
          })
  ]
    where
      leb_self : leb (length bytes) (length bytes) ≡ true
      leb_self = ground arith

  module _ (free : c.events.writing ≡ false) (n : ℕ) (taken : n ≤ length bytes) where
    left : sub_size (length bytes) n ≡ length bytes - n
    left = omega arith

    -- What the direct write takes; the rest waits.
    all_written :
        (d : TcpConnection)
        → length bytes ≤ n
        → (d.output ≡ c.output)
        → (d.sent ≡ c.sent ++ take n bytes)
        → (d.state ≡ c.state)
        → (d.events ≡ c.events)
        → Carries c bytes (ok d)
    all_written d h o s t w = record {
      result = d;
      returns = refl;
      live = record {
        valid = subst IsValid (sym o) live.valid;
        idle = λ e. ap contents o ∙ live.idle free;
        busy = λ e. absurd (let p = ap (λ (i : Interest). i.writing) w in cc);
      };
      accepted = ap₂ (λ a b. a ++ contents b) s o ∙ all_sent c live free bytes n h;
      same_state = t;
      no_later =
          subst
            (λ b.
              max cheap_prepend b.writer_index
              ≤ max cheap_prepend c.output.writer_index + length bytes)
            (sym o) (omega arith);
    }

    written_some :
        n < length bytes → Carries c bytes (queue_rest (gone c live free bytes n) (drop n bytes))
    written_some lt =
        let h : Carries (gone c live free bytes n) (drop n bytes)
            (queue_rest (gone c live free bytes n) (drop n bytes)) =
          queue_rest-Carries (gone c live free bytes n) (drop n bytes) live.valid
            (omega (arith, length-drop n bytes)) (omega (arith, length-drop n bytes)) in
        record {
          result = h.result;
          returns = h.returns;
          live = h.live;
          accepted = h.accepted ∙ some_sent c live free bytes n;
          same_state = h.same_state;
          no_later = omega (arith, h.no_later, length-drop n bytes);
        }

    either :
        length bytes ≤ n
        → (w : Bool)
        → Carries c bytes (
            ok (
              if w
              then queue write_complete (gone c live free bytes n)
              else gone c live free bytes n))
    unfolding queue
    either h true = all_written _ h refl refl refl refl
    either h false = all_written _ h refl refl refl refl

    direct_sent : Carries c bytes (finish_send (attempt_write c bytes (wrote n)) bytes)
    unfolding finish_send attempt_write queue
    direct_sent = elim (dec_le (length bytes) n) [
      | yes h ↦
          let z : sub_size (length bytes) n ≡ 0 = omega arith in
          let le : leb 0 (length bytes) ≡ true = ground arith in
          rw (z, le) (either h c.wants_write_complete)
      | no h ↦
          let more : (length bytes - n == 0) ≡ false = ground arith in
          let le : leb (length bytes - n) (length bytes) ≡ true = ground arith in
          let lt : ltb 0 (length bytes - n) ≡ true = ground arith in
          rw (left, more, le, lt) (written_some (omega arith))
    ]

  failed :
      (e : ℕ)
      → e ≢ epipe
      → e ≢ econnreset
      → Carries c bytes (finish_send (attempt_write c bytes (write_failed e)) bytes)
  unfolding attempt_write
  failed e pipe reset =
      let harmless : ((e == epipe) || (e == econnreset)) ≡ false = ground arith in
      rw harmless none_sent

  -- Where the kernel takes no more than it is given, and does not end the stream, what is sent on a
  -- live connection that is not disconnected is accepted whole, behind what was accepted before it,
  -- as long as it fits into the buffer.
  pub send_in_loop-Carries :
      (reply : WriteReply)
      → IsTaken (length bytes) reply
      → is_disconnected c.state ≡ false
      → Carries c bytes (send_in_loop c bytes reply)
  unfolding send_in_loop
  send_in_loop-Carries reply taken up =
      elim (Bool-cases (not c.events.writing && (readable_bytes c.output == 0))) [
        | inl e ↦ rw (up, e) (direct reply taken (ground arith))
        | inr e ↦ rw (up, e) none_sent
      ]
    where
      direct :
          (reply : WriteReply)
          → IsTaken (length bytes) reply
          → c.events.writing ≡ false
          → Carries c bytes (finish_send (attempt_write c bytes reply) bytes)
      direct (wrote n) taken free = direct_sent free n taken
      direct (write_failed e) (pipe, reset) free = failed e pipe reset
