-- ===== src/TcpConnection/Tests.antt =====
-- A connection over a short run, and its theorems there.
use ccnet.Prelude.{ℕ, min, refl, true, false, List, [], ◌∷◌, arith}
use ccnet.Buffer.{Buffer}
use ccnet.TcpConnection.{TcpConnection, connected, WriteReply, wrote, write_failed}
use ccnet.TcpConnection.Stream.{IsLive, IsTaken, Carries}
use ccnet.TcpConnection.Runs.{Event, sends, writable, run, AllCalm, run-Carries}

abbrev empty : Buffer
empty = record {
  storage = 0 ∷ 0 ∷ 0 ∷ 0 ∷ 0 ∷ 0 ∷ 0 ∷ 0 ∷ 0 ∷ 0 ∷ [];
  reader_index = 8;
  writer_index = 8;
}

-- A connection that is open and reads.
abbrev opened : TcpConnection
opened = record {
  state = connected;
  reading = true;
  events = record { reading = true; writing = false };
  in_poller = true;
  tied = true;
  output = empty;
  input = empty;
  mark = 67108864;
  wants_write_complete = true;
  wants_high_water_mark = false;
  sent = [];
  write_shut = false;
  tasks = [];
  calls = [];
}

opened-IsLive : IsLive opened
opened-IsLive = record { valid = omega arith; idle = λ _. refl; busy = λ e. absurd cc }

-- The kernel takes at most two bytes at a time.
abbrev two_at_most : ℕ → WriteReply
two_at_most len = wrote (min 2 len)

two_at_most-IsTaken : (len : ℕ) → IsTaken len (two_at_most len)
two_at_most-IsTaken len = omega arith

-- Or answers `EWOULDBLOCK`.
abbrev blocks : ℕ → WriteReply
blocks len = write_failed 11

abbrev script : List Event
script = sends (1 ∷ 2 ∷ 3 ∷ []) two_at_most ∷ sends (4 ∷ []) blocks ∷ writable two_at_most ∷ []

script-AllCalm : AllCalm script
script-AllCalm = (two_at_most-IsTaken, (λ len. (λ e. cc, λ e. cc), (two_at_most-IsTaken, tt)))

run-Carries_example : Carries opened (1 ∷ 2 ∷ 3 ∷ 4 ∷ []) (run opened script)
run-Carries_example = run-Carries script opened opened-IsLive script-AllCalm refl (omega arith)

abbrev waiting : TcpConnection
waiting = record opened {
  events = record { reading = true; writing = true };
  output = record {
    storage = 0 ∷ 0 ∷ 0 ∷ 0 ∷ 0 ∷ 0 ∷ 0 ∷ 0 ∷ 5 ∷ 6 ∷ [];
    reader_index = 8;
    writer_index = 10;
  };
}

waiting-IsLive : IsLive waiting
waiting-IsLive = record { valid = omega arith; idle = λ e. absurd cc; busy = λ e. omega arith }
