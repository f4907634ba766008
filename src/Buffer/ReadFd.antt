-- ===== src/Buffer/ReadFd.antt =====
-- `Buffer::readFd` of net/buffer.cc. The system call is a parameter: given the capacities of its
-- two buffers, `readv` fails with an error number or gives the bytes that it read.
use ccnet.Prelude.{
  ℕ, ◌+◌, ◌-◌, ◌*◌, ◌%◌, ◌^◌, ◌≤◌, ◌<◌, max, ◌≡◌, refl, ap, ◌∙◌, Option, none, some, List, [], ◌∷◌,
  ◌++◌, append_assoc, arith, ltb, leb, if◌then◌else◌, length, take, drop, write_at, length-take,
  length-drop,
}
use ccnet.Prelude.Outcome.{Outcome, ok, ◌>>=◌}
use ccnet.Prelude.{take_all, take-append-drop}
use native.Mathlib.Decide.{dec_le}
use ccnet.Buffer.{Buffer, max_size, writable_bytes, append}
use ccnet.Buffer.Window.{IsValid, contents, writable_bytes-eq}
use ccnet.Buffer.Operations.{Appended, append_total, written, written-IsValid, contents-written}

pub data Reply : Type 0 where
  failed : ℕ → Reply
  got : List ℕ → Reply

abbrev pub extra_size : ℕ
extra_size = 65536

-- The result of `readFd`: its return value, `none` for a negative one, what it leaves in
-- `*savedErrno`, and the buffer.
pub record Read : Type 0 where
  pub count : Option ℕ
  pub saved_errno : Option ℕ
  pub buffer : Buffer

-- The lengths of the vectors that `readFd` hands to `readv`.
pub capacities : Buffer → List ℕ
capacities b =
    let writable = writable_bytes b in
    if ltb writable extra_size then writable ∷ extra_size ∷ [] else writable ∷ []

-- The bytes that fit lie behind the readable ones already; the others are in `extrabuf`.
receive : Buffer → List ℕ → Outcome Buffer
receive b xs =
    let writable = writable_bytes b in
    let filled = write_at b.writer_index (take writable xs) b.storage in
    if leb (length xs) writable
    then ok (record b { storage = filled; writer_index = (b.writer_index + length xs) % 2 ^ 64 })
    else append (record b { storage = filled; writer_index = length b.storage }) (drop writable xs)

finish : Buffer → Reply → Outcome Read
finish b (failed e) = ok (record { count = none; saved_errno = some e; buffer = b })
finish b (got xs) = do
  c ← receive b xs
  ok (record { count = some (length xs); saved_errno = none; buffer = c })

pub read_fd : (List ℕ → Reply) → Buffer → Outcome Read
read_fd readv b = finish b (readv (capacities b))

abbrev sum : List ℕ → ℕ
sum [] = 0
sum (x ∷ xs) = x + sum xs

-- The system call gives no more bytes than it was given room for.
abbrev pub IsBounded : (List ℕ → Reply) → Type 0
IsBounded readv = (caps : List ℕ) (xs : List ℕ) → readv caps ≡ got xs → length xs ≤ sum caps

module _ (b : Buffer) (v : IsValid b) (xs : List ℕ) where
  abbrev room : ℕ
  room = length b.storage - b.writer_index

  receive_fits : length xs ≤ room → receive b xs ≡ ok (written b xs)
  unfolding receive written
  receive_fits h = rw (writable_bytes-eq b v, take_all room xs h) (ground arith)

  receive_spills :
      room < length xs → receive b xs ≡ append (written b (take room xs)) (drop room xs)
  unfolding receive written
  receive_spills h =
      let total : b.writer_index + length (take room xs) ≡ length b.storage =
        omega (arith, length-take room xs) in
      rw (writable_bytes-eq b v, total) (ground arith)

  spilled :
      room < length xs
      → length b.storage + extra_size ≤ max_size
      → length xs ≤ room + extra_size
      → Appended b xs (receive b xs)
  spilled over fits bound = record {
    result = a.result;
    returns = receive_spills over ∙ a.returns;
    valid = a.valid;
    holds =
        a.holds
        ∙ ap (λ ys. ys ++ drop room xs)
            (contents-written b (take room xs) v (omega (arith, length-take room xs)))
        ∙ append_assoc (contents b) (take room xs) (drop room xs)
        ∙ ap (λ ys. contents b ++ ys) (take-append-drop room xs);
    no_later =
        unfold written in omega (arith, a.no_later, length-take room xs, length-drop room xs);
  }
    where
      a :
          Appended
            (written b (take room xs))
            (drop room xs)
            (append (written b (take room xs)) (drop room xs))
      a =
          append_total (written b (take room xs)) (drop room xs)
            (written-IsValid b (take room xs) v (omega (arith, length-take room xs)))
            (unfold written in omega (arith, length-take room xs, length-drop room xs))

  receive-Appended :
      length b.storage + extra_size ≤ max_size
      → length xs ≤ room + extra_size
      → Appended b xs (receive b xs)
  receive-Appended fits bound = elim (dec_le (length xs) room) [
    | yes h ↦ record {
      result = written b xs;
      returns = receive_fits h;
      valid = written-IsValid b xs v (omega arith);
      holds = contents-written b xs v (omega arith);
      no_later = unfold written in omega arith;
    }
    | no h ↦ spilled (omega arith) fits bound
  ]

-- What a call leaves, after a reply of the system call: on an error the buffer as it was and the
-- error number saved, and else the bytes read behind those that were there, at most 128K - 1 of
-- them where the second vector is in use, and their number as the result.
pub data Reads (b : Buffer) (r : Outcome Read) : Reply → Type 0 where
  fails :
      (e : ℕ)
      → r ≡ ok (record { count = none; saved_errno = some e; buffer = b })
      → Reads b r (failed e)
  reads :
      (xs : List ℕ) (c : Buffer)
      → r ≡ ok (record { count = some (length xs); saved_errno = none; buffer = c })
      → IsValid c
      → contents c ≡ contents b ++ xs
      → length xs ≤ max (writable_bytes b) (2 * extra_size - 1)
      → Reads b r (got xs)

module _ (b : Buffer) (v : IsValid b) (fits : length b.storage + extra_size ≤ max_size) where
  sum-capacities : sum (capacities b) ≤ max (writable_bytes b) (2 * extra_size - 1)
  unfolding capacities
  sum-capacities = ground arith

  sum-capacities-le : sum (capacities b) ≤ length b.storage - b.writer_index + extra_size
  unfolding capacities
  sum-capacities-le = ground (arith, writable_bytes-eq b v)

  finish-Reads :
      (reply : Reply)
      → ((xs : List ℕ) → reply ≡ got xs → length xs ≤ sum (capacities b))
      → Reads b (finish b reply) reply
  unfolding finish
  finish-Reads (failed e) h = fails e refl
  finish-Reads (got xs) h =
      reads xs a.result (rw a.returns refl) a.valid a.holds
        (omega (arith, h xs refl, sum-capacities))
    where
      a : Appended b xs (receive b xs)
      a = receive-Appended b v xs fits (omega (arith, h xs refl, sum-capacities-le))

  -- Where `readv` gives no more bytes than it was given room for, and a vector may be 64 KB longer
  -- than the storage, `readFd` on a valid buffer leaves the buffer as a failure finds it, and else
  -- appends exactly the bytes received and returns their number.
  pub read_fd-Reads :
      (readv : List ℕ → Reply) → IsBounded readv → Reads b (read_fd readv b) (readv (capacities b))
  unfolding read_fd
  read_fd-Reads readv bounded = finish-Reads (readv (capacities b)) (bounded (capacities b))
