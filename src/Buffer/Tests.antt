-- ===== src/Buffer/Tests.antt =====
-- Runs of the buffer, and its theorems at inputs that meet their hypotheses.
use ccnet.Prelude.{
  ℕ, ◌+◌, ◌-◌, ◌^◌, ◌<◌, ◌≡◌, refl, ◌⊎◌, none, some, List, [], ◌∷◌, arith, leb, if◌then◌else◌, take,
  length-take,
}
use mathlib.Core.Option
use ccnet.Prelude.Outcome.{ok, assert_failed, length_error, ◌>>=◌}
use ccnet.Prelude.Int.{pos, negsuc, to_int}
use ccnet.Buffer.{
  Buffer, init, append, retrieve, retrieve_all, retrieve_as_string, prepend, unwrite, shrink,
  ensure_writable_bytes, make_space, has_written, retrieve_until, retrieve_all_as_string,
  to_string_piece, piece_of, readable_bytes,
}
use ccnet.Buffer.Window.{IsValid}
use ccnet.Buffer.Operations.{Appended, Shrunk, append-Appended, shrink-Shrunk}
use ccnet.Buffer.Queue.{
  Op, appends, retrieves, unwrites, run, run_queue, run-Refines, step, step_queue,
}
use ccnet.Buffer.Find.{
  starts_with, search_in, memchr, crlf, find_crlf, find_eol, find_crlf_from, find_eol_from,
}
use ccnet.Buffer.Search.{FindsFrom, find_crlf_from-FindsFrom}
use ccnet.Buffer.Integers.{Reads, append_int, read_int, read_int-append_int}
use ccnet.Buffer.Little.{little}
use ccnet.Buffer.ReadFd.{Reply, failed, got, IsBounded, capacities, read_fd, read_fd-Reads}
use ccnet.Buffer.ReadFd

operations : Unit {0}
unfolding init append retrieve retrieve_all retrieve_as_string prepend unwrite shrink
    ensure_writable_bytes make_space has_written to_string_piece piece_of to_int run step run_queue
    step_queue retrieve_until retrieve_all_as_string
operations = tt

-- From 2 ^ 31 bytes on the cast of their number to `int` is negative, and from 2 ^ 32 on it is too small.
cast_length : (to_int (pos 2147483648) ≡ negsuc 2147483647) × (to_int (pos 4294967299) ≡ pos 3)
unfolding to_int
cast_length = (refl, refl)

-- Ten bytes of storage: two read, `ab` readable, none writable.
abbrev small : Buffer
small = record {
  storage = 0 ∷ 0 ∷ 0 ∷ 0 ∷ 0 ∷ 0 ∷ 0 ∷ 0 ∷ 1 ∷ 2 ∷ 97 ∷ 98 ∷ [];
  reader_index = 10;
  writer_index = 12;
}

-- `a`, CR, LF, `b`, LF.
abbrev lines : Buffer
lines = record {
  storage = 0 ∷ 0 ∷ 0 ∷ 0 ∷ 0 ∷ 0 ∷ 0 ∷ 0 ∷ 97 ∷ 13 ∷ 10 ∷ 98 ∷ 10 ∷ 0 ∷ [];
  reader_index = 8;
  writer_index = 13;
}

small-IsValid : IsValid small
small-IsValid = omega arith

lines-IsValid : IsValid lines
lines-IsValid = omega arith

-- One byte more fits once the readable ones are moved to the front; four do not.
moves_or_grows :
    (append small (99 ∷ [])
      ≡ ok (record {
        storage = 0 ∷ 0 ∷ 0 ∷ 0 ∷ 0 ∷ 0 ∷ 0 ∷ 0 ∷ 97 ∷ 98 ∷ 99 ∷ 98 ∷ [];
        reader_index = 8;
        writer_index = 11;
      }))
    × (append small (1 ∷ 2 ∷ 3 ∷ 4 ∷ [])
        ≡ ok (record {
          storage = 0 ∷ 0 ∷ 0 ∷ 0 ∷ 0 ∷ 0 ∷ 0 ∷ 0 ∷ 1 ∷ 2 ∷ 97 ∷ 98 ∷ 1 ∷ 2 ∷ 3 ∷ 4 ∷ [];
          reader_index = 10;
          writer_index = 16;
        }))
unfolding operations
moves_or_grows = (refl, refl)

takes :
    (retrieve_as_string small 1 ≡ ok (97 ∷ [], record small { reader_index = 11 }))
    × (retrieve small 3 ≡ assert_failed)
    × (retrieve_until lines 11 ≡ ok (record lines { reader_index = 11 }))
unfolding operations
takes = (refl, refl, refl)

searches :
    (find_crlf lines ≡ some 9)
    × (find_eol lines ≡ some 10)
    × (find_crlf_from lines 10 ≡ ok none)
    × (find_eol_from lines 11 ≡ ok (some 12))
unfolding find_crlf find_eol find_crlf_from find_eol_from starts_with search_in memchr
    readable_bytes
searches = (refl, refl, refl, refl)

abbrev script : List Op
script = appends (99 ∷ []) ∷ retrieves 2 ∷ unwrites 1 ∷ appends (1 ∷ 2 ∷ []) ∷ retrieves 3 ∷ []

append-Appended_example :
    Appended small (99 ∷ []) (append small (99 ∷ []))
    ⊎ ((append small (99 ∷ []) ≡ length_error) × (2 ^ 63 - 1 < 12 + 1))
append-Appended_example = append-Appended small (99 ∷ []) small-IsValid (omega arith)

-- The last retrieval asks for more than there is.
run-Refines_example : run small script ≡ assert_failed
unfolding operations Option.bind
run-Refines_example = run-Refines script small small-IsValid (omega arith)

shrink-Shrunk_example : Shrunk small 2000 (shrink small 2000)
unfolding readable_bytes
shrink-Shrunk_example = shrink-Shrunk small 2000 small-IsValid (omega arith) (omega arith)

find_crlf_from-FindsFrom_example : FindsFrom crlf lines 9 (find_crlf_from lines 9)
find_crlf_from-FindsFrom_example =
    find_crlf_from-FindsFrom lines 9 lines-IsValid (omega arith) (omega arith)

read_int-append_int_example :
    Reads 258 [] (
      append_int little 4 small 258 >>= λ c.
      retrieve c (readable_bytes small) >>= read_int little 4)
read_int-append_int_example =
    read_int-append_int little 4 258 (omega arith) small small-IsValid (omega arith)

abbrev given : List ℕ
given = 7 ∷ 8 ∷ 9 ∷ []

-- A system call that has three bytes to give.
abbrev three_bytes : List ℕ → Reply
three_bytes [] = failed 22
three_bytes (c ∷ caps) = if leb 3 c then got given else got (take c given)

three_bytes-IsBounded : IsBounded three_bytes
three_bytes-IsBounded [] xs e = cc
three_bytes-IsBounded (c ∷ caps) xs e = ground (arith, length-take c given)

read_fd-Reads_example :
    ReadFd.Reads lines (read_fd three_bytes lines) (three_bytes (capacities lines))
read_fd-Reads_example =
    read_fd-Reads lines lines-IsValid (omega arith) three_bytes three_bytes-IsBounded
