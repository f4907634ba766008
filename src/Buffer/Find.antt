-- ===== src/Buffer/Find.antt =====
-- `std::search`, `memchr` and the searches of net/buffer.h: the first match, or none.
use ccnet.Prelude.{
  length-drop, length-take, ap, ◌≤◌, ℕ, zero, suc, ◌+◌, ◌-◌, ◌<◌, ◌≡◌, refl, ◌↔◌, inl, inr, Bool,
  true, false, ◌&&◌, Option, none, some, List, [], ◌∷◌, arith, leb, ◌==◌, if◌then◌else◌, Bool-cases,
  length, take, slice,
}
use ccnet.Prelude.Outcome.{Outcome, ok, ◌>>◌, assert}
use mathlib.Core.Option
use ccnet.Buffer.{drop, Buffer, readable_bytes}

-- Whether the text begins with the pattern.
unfoldable pub starts_with : List ℕ → List ℕ → Bool
starts_with xs [] = true
starts_with [] (p ∷ pat) = false
starts_with (x ∷ xs) (p ∷ pat) = (x == p) && starts_with xs pat

-- `std::search`: the offset of the first match, or of the end.
unfoldable pub search_in : List ℕ → List ℕ → ℕ
search_in [] pat = 0
search_in (x ∷ xs) pat =
    let later = search_in xs pat in if starts_with (x ∷ xs) pat then 0 else suc later

-- `memchr`.
unfoldable pub memchr : List ℕ → ℕ → Option ℕ
memchr [] c = none
memchr (x ∷ xs) c = if x == c then some 0 else Option.map suc (memchr xs c)

abbrev pub crlf : List ℕ
crlf = 13 ∷ 10 ∷ []

abbrev pub newline : ℕ
newline = 10

-- A position is an index into the storage; `none` is the null pointer.
unfoldable pub find_crlf_from : Buffer → ℕ → Outcome (Option ℕ)
find_crlf_from b start = do
  assert (leb b.reader_index start)
  assert (leb start b.writer_index)
  let found = start + search_in (slice start (b.writer_index - start) b.storage) crlf
  ok (if found == b.writer_index then none else some found)

unfoldable pub find_crlf : Buffer → Option ℕ
find_crlf b =
    let found =
      b.reader_index
      + search_in (slice b.reader_index (b.writer_index - b.reader_index) b.storage) crlf in
    if found == b.writer_index then none else some found

unfoldable pub find_eol : Buffer → Option ℕ
find_eol b =
    Option.map (λ i. b.reader_index + i)
      (memchr (slice b.reader_index (readable_bytes b) b.storage) newline)

unfoldable pub find_eol_from : Buffer → ℕ → Outcome (Option ℕ)
find_eol_from b start = do
  assert (leb b.reader_index start)
  assert (leb start b.writer_index)
  ok (Option.map (λ i. start + i) (memchr (slice start (b.writer_index - start) b.storage) newline))

-- The pattern stands at offset `i`.
abbrev pub Occurs : List ℕ → List ℕ → ℕ → Type 0
Occurs pat xs i = slice i (length pat) xs ≡ pat

starts_with_iff : (xs pat : List ℕ) → (starts_with xs pat ≡ true) ↔ (take (length pat) xs ≡ pat)
unfolding starts_with
starts_with_iff xs [] = (λ _. refl, λ _. refl)
starts_with_iff [] (p ∷ pat) = (λ e. cc, λ e. cc)
starts_with_iff (x ∷ xs) (p ∷ pat) = ground (arith, starts_with_iff xs pat)

-- The search stops at the first match, or at the end where there is none.
search_first :
    (xs : List ℕ) (p : ℕ) (pat : List ℕ)
    → search_in xs (p ∷ pat) < length xs
    → Occurs (p ∷ pat) xs (search_in xs (p ∷ pat))
unfolding search_in
search_first [] p pat h = absurd (omega arith)
search_first (x ∷ xs) p pat h = elim (Bool-cases (starts_with (x ∷ xs) (p ∷ pat))) [
  | inl e ↦ rw e ((starts_with_iff (x ∷ xs) (p ∷ pat)).0 e)
  | inr e ↦ rw e (search_first xs p pat (ground arith))
]

search_none_before :
    (xs : List ℕ) (p : ℕ) (pat : List ℕ) (j : ℕ)
    → j < search_in xs (p ∷ pat)
    → ¬ Occurs (p ∷ pat) xs j
unfolding search_in
search_none_before [] p pat j h o = absurd (omega arith)
search_none_before (x ∷ xs) p pat zero h o =
    let e = (starts_with_iff (x ∷ xs) (p ∷ pat)).1 o in ground arith
search_none_before (x ∷ xs) p pat (suc j) h o = search_none_before xs p pat j (ground arith) o

-- The answer of a search from position `base`: the first match of the pattern, or none as there is
-- no match.
abbrev pub Finds : List ℕ → List ℕ → ℕ → Option ℕ → Type 0
Finds pat xs base none = (j : ℕ) → ¬ Occurs pat xs j
Finds pat xs base (some p) =
    (i : ℕ) × (p ≡ base + i)
    × (i + length pat ≤ length xs)
    × Occurs pat xs i
    × ((j : ℕ) → j < i → ¬ Occurs pat xs j)

search_in-le : (xs : List ℕ) (p : ℕ) (pat : List ℕ) → search_in xs (p ∷ pat) ≤ length xs
unfolding search_in
search_in-le [] p pat = omega arith
search_in-le (x ∷ xs) p pat = ground (arith, search_in-le xs p pat)

Occurs-fits :
    (pat xs : List ℕ) (i : ℕ) → 0 < length pat → Occurs pat xs i → i + length pat ≤ length xs
Occurs-fits pat xs i pos o =
    omega (arith, ap length o, length-take (length pat) (drop i xs), length-drop i xs)

pub search_in-Finds :
    (xs : List ℕ) (base p : ℕ) (pat : List ℕ)
    → let found = base + search_in xs (p ∷ pat) in
      Finds (p ∷ pat) xs base (if found == base + length xs then none else some found)
search_in-Finds xs base p pat =
    elim (Bool-cases (base + search_in xs (p ∷ pat) == base + length xs)) [
      | inl e ↦ rw e (λ j o.
          search_none_before xs p pat j (ground (arith, Occurs-fits (p ∷ pat) xs j (omega arith) o))
            o)
      | inr e ↦
          let inside : search_in xs (p ∷ pat) < length xs = ground (arith, search_in-le xs p pat) in
          let o = search_first xs p pat inside in
          rw e (
            search_in xs (p ∷ pat),
            refl,
            Occurs-fits (p ∷ pat) xs _ (omega arith) o,
            o,
            search_none_before xs p pat,
          )
    ]

Finds-cons :
    (pat : List ℕ) (x : ℕ) (xs : List ℕ) (o : Option ℕ)
    → ¬ Occurs pat (x ∷ xs) 0
    → Finds pat xs 0 o
    → Finds pat (x ∷ xs) 0 (Option.map suc o)
Finds-cons pat x xs none h f = skip
  where
    skip : (j : ℕ) → ¬ Occurs pat (x ∷ xs) j
    skip zero = h
    skip (suc j) = f j
Finds-cons pat x xs (some p) h (i, e, fits, o, before) = (suc i, omega arith, omega arith, o, skip)
  where
    skip : (j : ℕ) → j < suc i → ¬ Occurs pat (x ∷ xs) j
    skip zero lt = h
    skip (suc j) lt = before j (omega arith)

pub memchr_first : (xs : List ℕ) (c : ℕ) → Finds (c ∷ []) xs 0 (memchr xs c)
unfolding memchr
memchr_first [] c = λ j o. absurd (omega (arith, Occurs-fits (c ∷ []) [] j (omega arith) o))
memchr_first (x ∷ xs) c = elim (Bool-cases (x == c)) [
  | inl e ↦ rw e (0, omega arith, omega arith, ground arith, λ j lt. absurd (omega arith))
  | inr e ↦ rw e (Finds-cons (c ∷ []) x xs (memchr xs c) (λ o. ground arith) (memchr_first xs c))
]

-- The same answer counted from another position.
pub Finds-base :
    (pat xs : List ℕ) (base : ℕ) (o : Option ℕ)
    → Finds pat xs 0 o
    → Finds pat xs base (Option.map (λ i. base + i) o)
Finds-base pat xs base none f = f
Finds-base pat xs base (some p) (i, e, fits, o, before) = (i, omega arith, fits, o, before)
