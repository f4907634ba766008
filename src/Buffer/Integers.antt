-- ===== src/Buffer/Integers.antt =====
-- The integers of net/buffer.h in network byte order, over net/endian.h. An integer of `k` bytes
-- is its bit pattern, a number below 256 ^ k; `k` is 2, 4 or 8.
use ccnet.Prelude.{
  ℕ, zero, suc, ◌+◌, ◌-◌, ◌/◌, ◌%◌, ◌^◌, ◌≤◌, ◌<◌, ◌≡◌, refl, sym, ap, ◌∙◌, List, [], ◌∷◌, ◌++◌,
  append-nil, arith, leb, leb_iff, length, take, drop, slice, length-append,
}
use ccnet.Prelude.Outcome.{Outcome, ok, assert_failed, ◌>>=◌, ◌>>◌, assert}
use ccnet.Prelude.{take_prefix, drop_prefix, take-take}
use ccnet.Buffer.{max_size, Buffer, readable_bytes, append, prepend, retrieve}
use ccnet.Buffer.Window.{IsValid, contents, readable_bytes-eq, length-contents}
use ccnet.Buffer.Operations.{Appended, Leaves, append_total, prepend-Leaves, retrieve-Leaves}

-- The `k` bytes of a number, the most significant first.
unfoldable pub big_endian : ℕ → ℕ → List ℕ
big_endian zero x = []
big_endian (suc k) x = x / 256 ^ k % 256 ∷ big_endian k x

-- The machine and <endian.h>, which the library does not implement: `htobe64` and `be64toh` and
-- their narrower kin, and the bytes of an integer object in memory.
pub record Host : Type 0 where
  pub htobe : ℕ → ℕ → ℕ
  pub betoh : ℕ → ℕ → ℕ
  pub object_bytes : ℕ → ℕ → List ℕ
  pub object_value : ℕ → List ℕ → ℕ
  -- Copying an integer's bytes into another gives the integer.
  pub object_value-object_bytes : (k x : ℕ) → x < 256 ^ k → object_value k (object_bytes k x) ≡ x
  pub htobe-lt : (k x : ℕ) → x < 256 ^ k → htobe k x < 256 ^ k
  pub betoh-htobe : (k x : ℕ) → x < 256 ^ k → betoh k (htobe k x) ≡ x
  -- What lies in memory after the conversion is in network order.
  pub network_order : (k x : ℕ) → x < 256 ^ k → object_bytes k (htobe k x) ≡ big_endian k x

-- What a read that returns `x` leaves.
pub record Reads (x : ℕ) (rest : List ℕ) (r : Outcome (ℕ × Buffer)) : Type 0 where
  pub result : Buffer
  pub returns : r ≡ ok (x, result)
  pub valid : IsValid result
  pub holds : contents result ≡ rest

pub length-big_endian : (k x : ℕ) → length (big_endian k x) ≡ k
unfolding big_endian
length-big_endian zero x = refl
length-big_endian (suc k) x = ap suc (length-big_endian k x)

module _ (host : Host) where
  open host use {
    htobe, betoh, object_bytes, object_value, object_value-object_bytes, htobe-lt, betoh-htobe,
    network_order,
  }

  pub host_to_network : ℕ → ℕ → ℕ
  host_to_network k x = htobe k x

  pub network_to_host : ℕ → ℕ → ℕ
  network_to_host k x = betoh k x

  pub append_int : ℕ → Buffer → ℕ → Outcome Buffer
  unfolding host_to_network
  append_int k b x = append b (object_bytes k (host_to_network k x))

  pub prepend_int : ℕ → Buffer → ℕ → Outcome Buffer
  unfolding host_to_network
  prepend_int k b x = prepend b (object_bytes k (host_to_network k x))

  pub peek_int : ℕ → Buffer → Outcome ℕ
  unfolding network_to_host
  peek_int k b = do
    assert (leb k (readable_bytes b))
    ok (network_to_host k (object_value k (slice b.reader_index k b.storage)))

  pub read_int : ℕ → Buffer → Outcome (ℕ × Buffer)
  read_int k b = do result ← peek_int k b; c ← retrieve b k; ok (result, c)

  module _ (k x : ℕ) (small : x < 256 ^ k) where
    decode : betoh k (object_value k (big_endian k x)) ≡ x
    decode =
        rw (← network_order k x small, object_value-object_bytes k (htobe k x) (htobe-lt k x small))
          (betoh-htobe k x small)

    -- `append` of an integer appends its bytes in network order.
    pub append_int-Appended :
        (b : Buffer)
        → IsValid b
        → b.writer_index + k ≤ max_size
        → Appended b (big_endian k x) (append_int k b x)
    unfolding append_int
    append_int-Appended b v fits =
        rw (network_order k x small)
          (append_total b (big_endian k x) v (omega (arith, length-big_endian k x)))

    pub prepend_int-Leaves :
        (b : Buffer)
        → IsValid b
        → k ≤ b.reader_index
        → Leaves b (big_endian k x ++ contents b) (prepend_int k b x)
    unfolding prepend_int
    prepend_int-Leaves b v fits =
        rw (network_order k x small)
          (prepend-Leaves b (big_endian k x) v (omega (arith, length-big_endian k x)))

    module _ (b : Buffer) (v : IsValid b) (rest : List ℕ)
        (holds : contents b ≡ big_endian k x ++ rest) where
      enough : k ≤ readable_bytes b
      enough = omega (
        arith,
        ap length holds,
        length-contents b v,
        length-append (big_endian k x) rest,
        length-big_endian k x,
      )

      at_front : slice b.reader_index k b.storage ≡ big_endian k x
      at_front =
          sym (
            take-take k (b.writer_index - b.reader_index) (drop b.reader_index b.storage)
              (omega (arith, enough, readable_bytes-eq b v)))
          ∙ ap (take k) holds
          ∙ take_prefix k (big_endian k x) rest (sym (length-big_endian k x))

      peek_int-eq : peek_int k b ≡ ok x
      unfolding peek_int network_to_host
      peek_int-eq = rw (at_front, decode) (rw ((leb_iff k (readable_bytes b)).1 enough))

      -- An integer at the front is read off, and what comes behind it is left.
      pub read_int-Reads : Reads x rest (read_int k b)
      unfolding read_int
      read_int-Reads = record {
        result = left.result;
        returns = rw (peek_int-eq, left.returns);
        valid = left.valid;
        holds =
            left.holds
            ∙ ap (drop k) holds
            ∙ drop_prefix k (big_endian k x) rest (sym (length-big_endian k x));
      }
        where
          left : Leaves b (drop k (contents b)) (retrieve b k)
          left = retrieve-Leaves b k v enough

    -- An integer of `k` bytes that is prepended to a valid buffer with room before its bytes is read
    -- back, and the buffer holds what it held.
    pub read_int-prepend_int :
        (b : Buffer)
        → IsValid b
        → k ≤ b.reader_index
        → Reads x (contents b) (prepend_int k b x >>= read_int k)
    read_int-prepend_int b v fits =
        rw p.returns (read_int-Reads p.result p.valid (contents b) p.holds)
      where
        p : Leaves b (big_endian k x ++ contents b) (prepend_int k b x)
        p = prepend_int-Leaves b v fits

    -- An integer of `k` bytes that is appended to a valid buffer, and fits into a vector there, is read
    -- back once the bytes before it are retrieved, and leaves the buffer empty.
    pub read_int-append_int :
        (b : Buffer)
        → IsValid b
        → b.writer_index + k ≤ max_size
        → Reads x [] (append_int k b x >>= λ c. retrieve c (readable_bytes b) >>= read_int k)
    read_int-append_int b v fits =
        rw (a.returns, left.returns)
          (read_int-Reads left.result left.valid [] (
            left.holds
            ∙ ap (drop (readable_bytes b)) a.holds
            ∙ drop_prefix (readable_bytes b) (contents b) (big_endian k x)
                (sym (length-contents b v))
            ∙ sym (append-nil (big_endian k x))))
      where
        a : Appended b (big_endian k x) (append_int k b x)
        a = append_int-Appended b v fits

        left :
            Leaves a.result
              (drop (readable_bytes b) (contents a.result))
              (retrieve a.result (readable_bytes b))
        left = retrieve-Leaves a.result (readable_bytes b) a.valid (
            omega (
              arith,
              length-contents a.result a.valid,
              ap length a.holds,
              length-append (contents b) (big_endian k x),
              length-contents b v,
            ))

  -- A read of more bytes than there are fails its assertion.
  pub read_int_short : (k : ℕ) (b : Buffer) → readable_bytes b < k → read_int k b ≡ assert_failed
  unfolding read_int peek_int
  read_int_short k b h = ground arith
