-- ===== src/TcpConnection/Runs.antt =====
-- net/tcp_connection.cc: sends and write events in any order, and the end of the stream.
use ccnet.Prelude.{
  ℕ, ◌+◌, ◌≤◌, max, ◌≡◌, refl, sym, ap, ◌∙◌, true, false, List, [], ◌∷◌, ◌++◌, append-nil,
  append_assoc, arith, length, length-append,
}
use ccnet.Prelude.Outcome.{Outcome, ok, ◌>>=◌}
use ccnet.Buffer.{readable_bytes, cheap_prepend, max_size}
use ccnet.Buffer.Window.{contents}
use ccnet.TcpConnection.{TcpConnection, is_disconnected, WriteReply, send_in_loop, handle_write}
use ccnet.TcpConnection.Stream.{IsLive, stream, Carries, IsTaken, send_in_loop-Carries}
use ccnet.TcpConnection.Drain.{handle_write-Carries}

-- A send, or a descriptor that can be written to, with the answer of the kernel to a write of a
-- given length.
pub data Event : Type 0 where
  sends : List ℕ → (ℕ → WriteReply) → Event
  writable : (ℕ → WriteReply) → Event

unfoldable pub step : TcpConnection → Event → Outcome TcpConnection
step c (sends bytes answer) = send_in_loop c bytes (answer (length bytes))
step c (writable answer) = handle_write c (answer (readable_bytes c.output))

unfoldable pub run : TcpConnection → List Event → Outcome TcpConnection
run c [] = ok c
run c (e ∷ es) = step c e >>= λ d. run d es

-- The bytes that are sent, in order.
abbrev pub given : List Event → List ℕ
given [] = []
given (sends bytes answer ∷ es) = bytes ++ given es
given (writable answer ∷ es) = given es

abbrev given_by : Event → List ℕ
given_by (sends bytes answer) = bytes
given_by (writable answer) = []

given-cons : (e : Event) (es : List Event) → given (e ∷ es) ≡ given_by e ++ given es
given-cons (sends bytes answer) es = refl
given-cons (writable answer) es = refl

-- The kernel takes no more than it is given, and reports no broken connection.
abbrev IsCalm : Event → Type 0
IsCalm (sends bytes answer) = (len : ℕ) → IsTaken len (answer len)
IsCalm (writable answer) = (len : ℕ) → IsTaken len (answer len)

abbrev pub AllCalm : List Event → Type 0
AllCalm [] = Unit {0}
AllCalm (e ∷ es) = IsCalm e × AllCalm es

step-Carries :
    (c : TcpConnection) (e : Event)
    → IsLive c
    → IsCalm e
    → is_disconnected c.state ≡ false
    → max cheap_prepend c.output.writer_index + length (given_by e) ≤ max_size
    → Carries c (given_by e) (step c e)
unfolding step
step-Carries c (sends bytes answer) live calm up fits =
    send_in_loop-Carries c live bytes fits (answer (length bytes)) (calm (length bytes)) up
step-Carries c (writable answer) live calm up fits =
    handle_write-Carries c live (answer (readable_bytes c.output)) (calm (readable_bytes c.output))

-- However the sends and the write events of a live connection interleave, and whatever parts the
-- kernel takes while it reports no broken connection: as long as the bytes fit into the buffer no
-- call fails, and what went out and what still waits are together what was sent, in order.
pub run-Carries :
    (es : List Event) (c : TcpConnection)
    → IsLive c
    → AllCalm es
    → is_disconnected c.state ≡ false
    → max cheap_prepend c.output.writer_index + length (given es) ≤ max_size
    → Carries c (given es) (run c es)
unfolding run
run-Carries [] c live calm up fits = record {
  result = c;
  returns = refl;
  live = live;
  accepted = sym (append-nil (stream c));
  same_state = refl;
  no_later = omega arith;
}
run-Carries (e ∷ es) c live (calm, rest) up fits =
    let total = ap length (given-cons e es) ∙ length-append (given_by e) (given es) in
    let s : Carries c (given_by e) (step c e) =
      step-Carries c e live calm up (omega (arith, total)) in
    let t : Carries s.result (given es) (run s.result es) =
      run-Carries es s.result s.live rest (ap is_disconnected s.same_state ∙ up)
        (omega (arith, total, s.no_later)) in
    record {
      result = t.result;
      returns = rw s.returns t.returns;
      live = t.live;
      accepted =
          t.accepted
          ∙ ap (λ xs. xs ++ given es) s.accepted
          ∙ append_assoc (stream c) (given_by e) (given es)
          ∙ ap (λ xs. stream c ++ xs) (sym (given-cons e es));
      same_state = t.same_state ∙ s.same_state;
      no_later = omega (arith, t.no_later, s.no_later, total);
    }

-- What `shutdown` comes to: the end of the stream goes out with nothing waiting before it.
pub record Ends (c : TcpConnection) (r : Outcome TcpConnection) : Type 0 where
  pub result : TcpConnection
  pub returns : r ≡ ok result
  pub shut : result.write_shut ≡ true
  pub all_sent : result.sent ≡ stream c
  pub none_wait : contents result.output ≡ []
