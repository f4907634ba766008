-- ===== src/Buffer.antt =====
-- net/buffer.h and net/buffer.cc: the application buffer, a byte vector with a read and a write
-- index. A byte is a number; `peek()` and `beginWrite()` are the indices they point to.
pub mod Window
pub mod Operations
pub mod Queue
pub mod Find
pub mod Search
pub mod Integers
mod Little
pub mod ReadFd
mod Tests
use ccnet.Prelude.{
  ℕ, ◌+◌, ◌-◌, ◌^◌, Bool, true, false, ◌&&◌, Option, none, some, List, [], ◌∷◌, ◌++◌, ltb, leb,
  ◌==◌, if◌then◌else◌, length, take, drop, replicate, slice, write_at,
}
use ccnet.Prelude.Size.{add_size, sub_size}
use ccnet.Prelude.Int.{ℤ, pos, negsuc, to_int}
use ccnet.Prelude.Outcome.{Outcome, ok, assert_failed, length_error, ◌>>=◌, ◌>>◌, assert}

pub record Buffer : Type 0 where
  pub storage : List ℕ
  pub reader_index : ℕ
  pub writer_index : ℕ

abbrev pub cheap_prepend : ℕ
cheap_prepend = 8

abbrev pub initial_size : ℕ
initial_size = 1024

-- `std::vector<char>::max_size()`, the largest `ptrdiff_t`.
abbrev pub max_size : ℕ
max_size = 2 ^ 63 - 1

-- `std::vector<char>::resize`.
pub resize : List ℕ → ℕ → Outcome (List ℕ)
resize xs n = if ltb max_size n then length_error else ok (take n xs ++ replicate (n - length xs) 0)

pub init : ℕ → Outcome Buffer
unfolding resize
init size = do
  xs ← resize [] (add_size cheap_prepend size)
  ok (record { storage = xs; reader_index = cheap_prepend; writer_index = cheap_prepend })

unfoldable pub readable_bytes : Buffer → ℕ
readable_bytes b = sub_size b.writer_index b.reader_index

pub writable_bytes : Buffer → ℕ
writable_bytes b = sub_size (length b.storage) b.writer_index

pub prependable_bytes : Buffer → ℕ
prependable_bytes b = b.reader_index

-- The `readableBytes()` bytes from `peek()` on.
unfoldable pub peeked : Buffer → List ℕ
unfolding readable_bytes
peeked b = slice b.reader_index (readable_bytes b) b.storage

-- The length of a `StringPiece` is an `int`. A negative one stands as a failed assertion: C++ leaves a
-- copy of so many bytes undefined.
unfoldable pub piece_of : List ℕ → ℤ → Outcome (List ℕ)
piece_of xs (pos n) = ok (take n xs)
piece_of xs (negsuc n) = assert_failed

unfoldable pub to_string_piece : Buffer → Outcome (List ℕ)
unfolding readable_bytes
to_string_piece b = piece_of (drop b.reader_index b.storage) (to_int (pos (readable_bytes b)))

pub retrieve_all : Buffer → Buffer
retrieve_all b = record b { reader_index = cheap_prepend; writer_index = cheap_prepend }

pub retrieve : Buffer → ℕ → Outcome Buffer
unfolding readable_bytes retrieve_all
retrieve b len = do
  assert (leb len (readable_bytes b))
  let rest : Buffer = record b { reader_index = add_size b.reader_index len }
  ok (if ltb len (readable_bytes b) then rest else retrieve_all b)

-- The position is an index into the storage.
pub retrieve_until : Buffer → ℕ → Outcome Buffer
retrieve_until b end_index = do
  assert (leb b.reader_index end_index)
  assert (leb end_index b.writer_index)
  retrieve b (end_index - b.reader_index)

pub retrieve_as_string : Buffer → ℕ → Outcome (List ℕ × Buffer)
unfolding readable_bytes
retrieve_as_string b len = do
  assert (leb len (readable_bytes b))
  let result = slice b.reader_index len b.storage
  c ← retrieve b len
  ok (result, c)

pub retrieve_all_as_string : Buffer → Outcome (List ℕ × Buffer)
retrieve_all_as_string b = retrieve_as_string b (readable_bytes b)

pub make_space : Buffer → ℕ → Outcome Buffer
unfolding readable_bytes writable_bytes prependable_bytes resize
make_space b len =
    if ltb (add_size (writable_bytes b) (prependable_bytes b)) (add_size len cheap_prepend)
    then (do xs ← resize b.storage (add_size b.writer_index len); ok (record b { storage = xs }))
    else (do
      assert (ltb cheap_prepend b.reader_index)
      let readable = readable_bytes b
      let c : Buffer = record {
        storage = write_at cheap_prepend (slice b.reader_index readable b.storage) b.storage;
        reader_index = cheap_prepend;
        writer_index = add_size cheap_prepend readable;
      }
      assert (readable == readable_bytes c)
      ok c)

pub ensure_writable_bytes : Buffer → ℕ → Outcome Buffer
unfolding writable_bytes
ensure_writable_bytes b len = do
  c ← if ltb (writable_bytes b) len then make_space b len else ok b
  assert (leb len (writable_bytes c))
  ok c

pub has_written : Buffer → ℕ → Outcome Buffer
unfolding writable_bytes
has_written b len = do
  assert (leb len (writable_bytes b))
  ok (record b { writer_index = add_size b.writer_index len })

pub unwrite : Buffer → ℕ → Outcome Buffer
unfolding readable_bytes
unwrite b len = do
  assert (leb len (readable_bytes b))
  ok (record b { writer_index = sub_size b.writer_index len })

pub append : Buffer → List ℕ → Outcome Buffer
append b xs = do
  c ← ensure_writable_bytes b (length xs)
  has_written (record c { storage = write_at c.writer_index xs c.storage }) (length xs)

pub prepend : Buffer → List ℕ → Outcome Buffer
unfolding prependable_bytes
prepend b xs = do
  assert (leb (length xs) (prependable_bytes b))
  let at = sub_size b.reader_index (length xs)
  ok (record b { reader_index = at; storage = write_at at xs b.storage })

-- The swap with `other` hands its three fields over.
pub shrink : Buffer → ℕ → Outcome Buffer
unfolding readable_bytes
shrink b reserve = do
  other ← init initial_size
  c ← ensure_writable_bytes other (add_size (readable_bytes b) reserve)
  piece ← to_string_piece b
  append c piece
