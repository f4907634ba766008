-- ===== src/Buffer/Operations.antt =====
-- net/buffer.h and net/buffer.cc: the operations, as operations on the bytes that are held.
use ccnet.Prelude.{
  max, inr, ◌<◌, inl, ◌⊎◌, ℕ, ◌+◌, ◌-◌, ◌≤◌, ◌≡◌, refl, sym, ap, ◌∙◌, List, [], ◌++◌, arith, length,
  take, drop, slice, write_at, length-replicate, length-write_at, slice-write_at_after,
  slice-write_at_before, drop-take, drop-drop, drop_all, take-take, take-nil, replicate,
}
use ccnet.Prelude.Outcome.{Outcome, ok, length_error}
use ccnet.Prelude.Size.{add_size}
use native.Mathlib.Decide.{dec_lt}
use ccnet.Buffer.{
  initial_size, to_string_piece, piece_of, shrink, Buffer, cheap_prepend, resize, max_size, init,
  readable_bytes, retrieve_all, retrieve, ensure_writable_bytes, has_written, unwrite, append,
  prepend,
}
use ccnet.Prelude.Int.{pos, to_int-IsInt, pos-IsInt}
use ccnet.Buffer.Window.{
  ensure_writable_bytes-MakesRoom, ensure_fits, HasRoom, IsValid, contents, readable_bytes-eq,
  length-contents,
}

-- The call returns a valid buffer that holds `xs`.
pub record Holds (xs : List ℕ) (r : Outcome Buffer) : Type 0 where
  pub result : Buffer
  pub returns : r ≡ ok result
  pub valid : IsValid result
  pub holds : contents result ≡ xs

resize_fresh : (n : ℕ) → n ≤ max_size → resize [] n ≡ ok (replicate n 0)
unfolding resize
resize_fresh n h = ground (arith, take-nil {A = ℕ} n)

-- The same for a call on `b` that does not move the end of the bytes outwards.
pub record Leaves (b : Buffer) (xs : List ℕ) (r : Outcome Buffer) : Type 0 where
  pub result : Buffer
  pub returns : r ≡ ok result
  pub valid : IsValid result
  pub holds : contents result ≡ xs
  pub no_later : max cheap_prepend result.writer_index ≤ max cheap_prepend b.writer_index

-- An empty buffer with room for `size` bytes.
fresh : ℕ → Buffer
fresh size = record {
  storage = replicate (cheap_prepend + size) 0;
  reader_index = cheap_prepend;
  writer_index = cheap_prepend;
}

module _ (size : ℕ) (h : cheap_prepend + size ≤ max_size) where
  init_returns : init size ≡ ok (fresh size)
  unfolding init fresh
  init_returns =
      let fits : add_size cheap_prepend size ≡ cheap_prepend + size = omega arith in
      rw (fits, resize_fresh (cheap_prepend + size) h) refl

  fresh-IsValid : IsValid (fresh size)
  unfolding fresh
  fresh-IsValid = omega (arith, length-replicate {A = ℕ} (cheap_prepend + size) 0)

  -- A new buffer is valid and empty.
  pub init-Holds : Holds [] (init size)
  unfolding fresh
  init-Holds = record {
    result = fresh size;
    returns = init_returns;
    valid = fresh-IsValid;
    holds = refl;
  }

module _ (b : Buffer) (len : ℕ) (v : IsValid b) where
  advanced : Buffer
  advanced = record b { reader_index = b.reader_index + len }

  contents-advanced :
      len ≤ b.writer_index - b.reader_index → contents advanced ≡ drop len (contents b)
  unfolding advanced
  contents-advanced h =
      ap (take (b.writer_index - (b.reader_index + len)))
        (sym (drop-drop len b.reader_index b.storage))
      ∙ ap (λ n. take n (drop len (drop b.reader_index b.storage))) (omega arith)
      ∙ sym (drop-take len (b.writer_index - b.reader_index) (drop b.reader_index b.storage))

  pub retrieve-Leaves : len ≤ readable_bytes b → Leaves b (drop len (contents b)) (retrieve b len)
  unfolding retrieve advanced
  retrieve-Leaves h = elim (dec_lt len (b.writer_index - b.reader_index)) [
    | yes part ↦ record {
      result = advanced;
      returns = ground (arith, readable_bytes-eq b v);
      valid = omega arith;
      holds = contents-advanced (omega arith);
      no_later = omega arith;
    }
    | no whole ↦ record {
      result = retrieve_all b;
      returns = ground (arith, readable_bytes-eq b v);
      valid = omega arith;
      holds = sym (drop_all len (contents b) (omega (arith, length-contents b v)));
      no_later = unfold retrieve_all in omega arith;
    }
  ]

  pub unwrite-Leaves :
      len ≤ readable_bytes b → Leaves b (take (readable_bytes b - len) (contents b)) (unwrite b len)
  unfolding unwrite
  unwrite-Leaves h = record {
    result = record b { writer_index = b.writer_index - len };
    returns = ground (arith, readable_bytes-eq b v);
    valid = omega (arith, readable_bytes-eq b v);
    holds = sym (
        take-take _ _ (drop b.reader_index b.storage) (omega (arith, readable_bytes-eq b v))
        ∙ ap (λ n. slice b.reader_index n b.storage) (omega (arith, readable_bytes-eq b v)));
    no_later = omega (arith, readable_bytes-eq b v);
  }

-- `xs` copied behind the readable bytes.
unfoldable pub written : Buffer → List ℕ → Buffer
written b xs = record b {
  storage = write_at b.writer_index xs b.storage;
  writer_index = b.writer_index + length xs;
}

module _ (b : Buffer) (xs : List ℕ) (v : IsValid b) where
  -- Bytes that fit before the read index are prepended to those of a valid buffer.
  pub prepend-Leaves : length xs ≤ b.reader_index → Leaves b (xs ++ contents b) (prepend b xs)
  unfolding prepend
  prepend-Leaves h = record {
    result = record b { reader_index = at; storage = write_at at xs b.storage };
    returns = ground (arith);
    valid = omega (arith, length-write_at at xs b.storage);
    holds =
        ap (λ n. slice at n (write_at at xs b.storage)) (omega arith)
        ∙ slice-write_at_before at b.reader_index (b.writer_index - b.reader_index) xs b.storage
            (omega arith) (omega arith);
    no_later = omega arith;
  }
    where
      at : ℕ
      at = b.reader_index - length xs

  pub written-IsValid : b.writer_index + length xs ≤ length b.storage → IsValid (written b xs)
  unfolding written
  written-IsValid h = omega (arith, length-write_at b.writer_index xs b.storage)

  pub contents-written :
      b.writer_index + length xs ≤ length b.storage → contents (written b xs) ≡ contents b ++ xs
  unfolding written
  contents-written h =
      ap (λ n. slice b.reader_index n (write_at b.writer_index xs b.storage)) (omega arith)
      ∙ slice-write_at_after b.reader_index (b.writer_index - b.reader_index) b.writer_index xs
          b.storage (omega arith) h

append_returns :
    (b c : Buffer) (xs : List ℕ)
    → IsValid c
    → ensure_writable_bytes b (length xs) ≡ ok c
    → c.writer_index + length xs ≤ length c.storage
    → append b xs ≡ ok (written c xs)
unfolding append has_written written
append_returns b c xs vc e room = rw e (ground (arith, length-write_at c.writer_index xs c.storage))

append_fails :
    (b : Buffer) (xs : List ℕ)
    → ensure_writable_bytes b (length xs) ≡ length_error
    → append b xs ≡ length_error
unfolding append
append_fails b xs e = rw e

-- What `append` leaves when it returns.
pub record Appended (b : Buffer) (xs : List ℕ) (r : Outcome Buffer) : Type 0 where
  pub result : Buffer
  pub returns : r ≡ ok result
  pub valid : IsValid result
  pub holds : contents result ≡ contents b ++ xs
  pub no_later : result.writer_index ≤ b.writer_index + length xs

append_room :
    (b : Buffer) (xs : List ℕ)
    → HasRoom b (length xs) (ensure_writable_bytes b (length xs))
    → Appended b xs (append b xs)
append_room b xs h = record {
  result = written h.result xs;
  returns = append_returns b h.result xs h.valid h.returns h.room;
  valid = written-IsValid h.result xs h.valid h.room;
  holds = contents-written h.result xs h.valid h.room ∙ ap (λ ys. ys ++ xs) h.same;
  no_later = unfold written in omega (arith, h.no_later);
}

-- `append` adds the bytes at the end of a valid buffer, or throws because the storage would have to
-- grow past `max_size`; none of its assertions fails.
pub append-Appended :
    (b : Buffer) (xs : List ℕ)
    → IsValid b
    → length xs ≤ max_size
    → Appended b xs (append b xs)
      ⊎ ((append b xs ≡ length_error) × (max_size < b.writer_index + length xs))
append-Appended b xs v bound = elim (ensure_writable_bytes-MakesRoom b (length xs) v bound) [
  | inl h ↦ inl (append_room b xs h)
  | inr (e, over) ↦ inr (append_fails b xs e, over)
]

-- Where the bytes fit into a vector, `append` returns.
pub append_total :
    (b : Buffer) (xs : List ℕ)
    → IsValid b
    → b.writer_index + length xs ≤ max_size
    → Appended b xs (append b xs)
append_total b xs v fits = elim (append-Appended b xs v (omega arith)) [
  | inl h ↦ h
  | inr (_, over) ↦ absurd (omega arith)
]

-- Appending into room that is there leaves the rest of the room.
append_fits :
    (b : Buffer) (xs : List ℕ) (k : ℕ)
    → IsValid b
    → b.writer_index + (length xs + k) ≤ length b.storage
    → HasRoom (written b xs) k (append b xs)
append_fits b xs k v h = record {
  result = written b xs;
  returns = append_returns b b xs v (ensure_fits b (length xs) v (omega arith)) (omega arith);
  valid = written-IsValid b xs v (omega arith);
  same = refl;
  room = unfold written in omega (arith, length-write_at b.writer_index xs b.storage);
  no_later = omega arith;
}

shrink_returns :
    (b c d : Buffer) (reserve : ℕ)
    → IsValid b
    → readable_bytes b ≤ 2147483647
    → readable_bytes b + reserve ≤ max_size
    → init initial_size ≡ ok c
    → ensure_writable_bytes c (readable_bytes b + reserve) ≡ ok d
    → shrink b reserve ≡ append d (contents b)
unfolding shrink to_string_piece piece_of
shrink_returns b c d reserve v short h e f =
    let total : add_size (readable_bytes b) reserve ≡ readable_bytes b + reserve = omega arith in
    rw (e, total, f, to_int-IsInt (pos (readable_bytes b)) (pos-IsInt (readable_bytes b) short))
      (ap (λ n. append d (slice b.reader_index n b.storage)) (readable_bytes-eq b v))

-- What `shrink` leaves: the same bytes, and room for `reserve` more.
pub record Shrunk (b : Buffer) (reserve : ℕ) (r : Outcome Buffer) : Type 0 where
  pub result : Buffer
  pub returns : r ≡ ok result
  pub valid : IsValid result
  pub holds : contents result ≡ contents b
  pub room : result.writer_index + reserve ≤ length result.storage

module _ (b : Buffer) (reserve : ℕ) (v : IsValid b) (short : readable_bytes b ≤ 2147483647)
    (fits : readable_bytes b + reserve + cheap_prepend ≤ max_size) where
  ready :
      HasRoom
        (fresh initial_size)
        (readable_bytes b + reserve)
        (ensure_writable_bytes (fresh initial_size) (readable_bytes b + reserve))
  ready =
      elim (ensure_writable_bytes-MakesRoom (fresh initial_size) (readable_bytes b + reserve)
        (fresh-IsValid initial_size (omega arith)) (omega arith)) [
          | inl h ↦ h
          | inr (_, over) ↦ absurd (unfold fresh in omega arith)
        ]

  copied : HasRoom (written ready.result (contents b)) reserve (append ready.result (contents b))
  copied =
      append_fits ready.result (contents b) reserve ready.valid
        (omega (arith, ready.room, length-contents b v))

  -- Where the number of the bytes is an `int`, and the bytes, the reserve and the prepend space fit into
  -- a vector, `shrink` returns a valid buffer with the same bytes and room for the reserve.
  pub shrink-Shrunk : Shrunk b reserve (shrink b reserve)
  shrink-Shrunk = record {
    result = copied.result;
    returns =
        shrink_returns b (fresh initial_size) ready.result reserve v short (omega arith)
          (init_returns initial_size (omega arith)) ready.returns
        ∙ copied.returns;
    valid = copied.valid;
    holds =
        copied.same
        ∙ contents-written ready.result (contents b) ready.valid
            (omega (arith, ready.room, length-contents b v))
        ∙ ap (λ ys. ys ++ contents b) {y = []} (unfold fresh in ready.same);
    room = copied.room;
  }
