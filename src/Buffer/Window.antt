-- ===== src/Buffer/Window.antt =====
-- net/buffer.h: the readable bytes of a valid buffer, and what makes room for more of them.
use ccnet.Prelude.{
  ℕ, ◌+◌, ◌-◌, ◌≤◌, ◌<◌, ◌≡◌, refl, ◌⊎◌, inl, inr, List, ◌++◌, arith, length, slice,
  slice-write_at_self, length-take, length-append, length-replicate, length-slice, length-write_at,
  slice-append, take, replicate, take_all, ap, ◌∙◌, write_at,
}
use native.Mathlib.Decide.{dec_le}
use ccnet.Prelude.Outcome.{Outcome, ok, length_error}
use ccnet.Buffer.{
  Buffer, cheap_prepend, max_size, readable_bytes, writable_bytes, make_space,
  ensure_writable_bytes,
}

pub record IsValid (b : Buffer) : Type 0 where
  pub ordered : b.reader_index ≤ b.writer_index
  pub within : b.writer_index ≤ length b.storage
  pub roomy : cheap_prepend ≤ length b.storage
  pub small : length b.storage ≤ max_size

-- What the buffer holds, as a queue of bytes.
abbrev pub contents : Buffer → List ℕ
contents b = slice b.reader_index (b.writer_index - b.reader_index) b.storage

pub readable_bytes-eq :
    (b : Buffer) → IsValid b → readable_bytes b ≡ b.writer_index - b.reader_index
unfolding readable_bytes
readable_bytes-eq b v = omega arith

pub writable_bytes-eq :
    (b : Buffer) → IsValid b → writable_bytes b ≡ length b.storage - b.writer_index
unfolding writable_bytes
writable_bytes-eq b v = omega arith

pub length-contents : (b : Buffer) → IsValid b → length (contents b) ≡ readable_bytes b
length-contents b v = omega (
  arith,
  readable_bytes-eq b v,
  length-slice b.reader_index (b.writer_index - b.reader_index) b.storage,
)

-- What a successful call that makes room for `len` bytes leaves.
pub record HasRoom (b : Buffer) (len : ℕ) (r : Outcome Buffer) : Type 0 where
  pub result : Buffer
  pub returns : r ≡ ok result
  pub valid : IsValid result
  pub same : contents result ≡ contents b
  pub room : result.writer_index + len ≤ length result.storage
  pub no_later : result.writer_index ≤ b.writer_index

module _ (b : Buffer) (len : ℕ) (v : IsValid b)
    (full : length b.storage < b.writer_index + len) where
  -- The storage with fresh bytes behind it.
  grown : Buffer
  grown = record b { storage = take total b.storage ++ replicate (total - length b.storage) 0 }
    where
      total : ℕ
      total = b.writer_index + len

  length-grown : length grown.storage ≡ b.writer_index + len
  unfolding grown
  length-grown = omega (
    arith,
    length-append (take (b.writer_index + len) b.storage)
        (replicate (b.writer_index + len - length b.storage) 0),
    length-take (b.writer_index + len) b.storage,
    length-replicate {A = ℕ} (b.writer_index + len - length b.storage) 0,
  )

  contents-grown : contents grown ≡ contents b
  unfolding grown
  contents-grown =
      rw (take_all (b.writer_index + len) b.storage (omega arith))
        (slice-append b.reader_index _ b.storage _ (omega arith))

  grow-HasRoom :
      b.writer_index + len ≤ max_size
      → (length b.storage - b.writer_index) + b.reader_index < len + cheap_prepend
      → HasRoom b len (make_space b len)
  unfolding make_space grown
  grow-HasRoom fits tight = record {
    result = grown;
    returns = ground arith;
    valid = omega (arith, length-grown);
    same = contents-grown;
    room = omega (arith, length-grown);
    no_later = omega arith;
  }

  grow_fails :
      max_size < b.writer_index + len
      → len ≤ max_size
      → length b.storage - b.writer_index + b.reader_index < len + cheap_prepend
      → make_space b len ≡ length_error
  unfolding make_space
  grow_fails over bound tight = ground arith

module _ (b : Buffer) (len : ℕ) (v : IsValid b) (bound : len ≤ max_size)
    (loose : len + cheap_prepend ≤ length b.storage - b.writer_index + b.reader_index)
    (full : length b.storage < b.writer_index + len) where
  -- The readable bytes moved to the front.
  moved : Buffer
  moved = record {
    storage = write_at cheap_prepend (contents b) b.storage;
    reader_index = cheap_prepend;
    writer_index = cheap_prepend + (b.writer_index - b.reader_index);
  }

  length-held : length (contents b) ≡ b.writer_index - b.reader_index
  length-held =
      length-slice b.reader_index (b.writer_index - b.reader_index) b.storage (omega arith)

  length-moved : length moved.storage ≡ length b.storage
  unfolding moved
  length-moved = length-write_at cheap_prepend (contents b) b.storage (omega (arith, length-held))

  contents-moved : contents moved ≡ contents b
  unfolding moved
  contents-moved =
      ap (λ n. slice cheap_prepend n (write_at cheap_prepend (contents b) b.storage))
        {y = length (contents b)} (omega (arith, length-held))
      ∙ slice-write_at_self cheap_prepend (contents b) b.storage v.roomy

  move-HasRoom : HasRoom b len (make_space b len)
  unfolding make_space moved
  move-HasRoom = record {
    result = moved;
    returns = ground arith;
    valid = omega (arith, length-moved);
    same = contents-moved;
    room = omega (arith, length-moved);
    no_later = omega arith;
  }

-- Room for `len` bytes is made, or the storage would have to grow past `max_size`; no assertion
-- fails.
abbrev pub MakesRoom : Buffer → ℕ → Outcome Buffer → Type 0
MakesRoom b len r = HasRoom b len r ⊎ ((r ≡ length_error) × (max_size < b.writer_index + len))

make_space-MakesRoom :
    (b : Buffer) (len : ℕ)
    → IsValid b
    → len ≤ max_size
    → length b.storage < b.writer_index + len
    → MakesRoom b len (make_space b len)
make_space-MakesRoom b len v bound full =
    elim (dec_le (len + cheap_prepend) (length b.storage - b.writer_index + b.reader_index)) [
      | yes loose ↦ inl (move-HasRoom b len v bound loose full)
      | no tight ↦ elim (dec_le (b.writer_index + len) max_size) [
        | yes fits ↦ inl (grow-HasRoom b len v full fits (omega arith))
        | no over ↦ inr (grow_fails b len v full (omega arith) bound (omega arith), omega arith)
      ]
    ]

module _ (b : Buffer) (len : ℕ) (v : IsValid b) where
  pub ensure_fits : b.writer_index + len ≤ length b.storage → ensure_writable_bytes b len ≡ ok b
  unfolding ensure_writable_bytes writable_bytes
  ensure_fits fits = ground arith

  ensure_full :
      (c : Buffer)
      → length b.storage < b.writer_index + len
      → make_space b len ≡ ok c
      → IsValid c
      → c.writer_index + len ≤ length c.storage
      → ensure_writable_bytes b len ≡ ok c
  unfolding ensure_writable_bytes writable_bytes
  ensure_full c full e vc room = ground arith

  ensure_fails :
      length b.storage < b.writer_index + len
      → make_space b len ≡ length_error
      → ensure_writable_bytes b len ≡ length_error
  unfolding ensure_writable_bytes writable_bytes
  ensure_fails full e = ground arith

  pub ensure_writable_bytes-MakesRoom :
      len ≤ max_size → MakesRoom b len (ensure_writable_bytes b len)
  ensure_writable_bytes-MakesRoom bound = elim (dec_le (b.writer_index + len) (length b.storage)) [
    | yes fits ↦ inl (record {
      result = b;
      returns = ensure_fits fits;
      valid = v;
      same = refl;
      room = fits;
      no_later = omega arith;
    })
    | no short ↦
        let full : length b.storage < b.writer_index + len = omega arith in
        elim (make_space-MakesRoom b len v bound full) [
          | inl h ↦ inl (record {
            result = h.result;
            returns = ensure_full h.result full h.returns h.valid h.room;
            valid = h.valid;
            same = h.same;
            room = h.room;
            no_later = h.no_later;
          })
          | inr (e, over) ↦ inr (ensure_fails full e, over)
        ]
  ]
