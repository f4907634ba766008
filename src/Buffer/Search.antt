-- ===== src/Buffer/Search.antt =====
-- `findCRLF` and `findEOL` of net/buffer.h, over `std::search` and `memchr`.
use ccnet.Prelude.{
  subst, ◌∙◌, sym, ap, ◌≤◌, ℕ, ◌+◌, ◌-◌, ◌≡◌, Option, none, some, List, [], ◌∷◌, arith, ◌==◌,
  if◌then◌else◌, length, take, slice,
}
use ccnet.Prelude.Outcome.{Outcome, ok}
use mathlib.Core.Option
use ccnet.Buffer.Window.{readable_bytes-eq, contents, IsValid}
use ccnet.Prelude.{drop-drop, drop-take, length-slice}
use ccnet.Buffer.{drop, Buffer}
use ccnet.Buffer.Find.{
  search_in, memchr, crlf, newline, find_crlf_from, find_crlf, find_eol, find_eol_from, Finds,
  search_in-Finds, memchr_first, Finds-base,
}

-- The readable bytes from a position on.
from_start :
    (b : Buffer) (start : ℕ)
    → b.reader_index ≤ start
    → slice start (b.writer_index - start) b.storage ≡ drop (start - b.reader_index) (contents b)
from_start b start h =
    ap (λ n. take n (drop start b.storage))
      {y = b.writer_index - b.reader_index - (start - b.reader_index)} (omega arith)
    ∙ ap (λ i. take (b.writer_index - b.reader_index - (start - b.reader_index)) (drop i b.storage))
        {x = start} {y = b.reader_index + (start - b.reader_index)} (omega arith)
    ∙ ap (take _) (sym (drop-drop (start - b.reader_index) b.reader_index b.storage))
    ∙ sym (
        drop-take (start - b.reader_index) (b.writer_index - b.reader_index)
          (drop b.reader_index b.storage))

-- What the code compares the position found with is the end of the bytes that it searched.
search_to-Finds :
    (xs : List ℕ) (base w p : ℕ) (pat : List ℕ)
    → base + length xs ≡ w
    → let found = base + search_in xs (p ∷ pat) in
      Finds (p ∷ pat) xs base (if found == w then none else some found)
search_to-Finds xs base w p pat e =
    subst
      (λ w.
        let found = base + search_in xs (p ∷ pat) in
        Finds (p ∷ pat) xs base (if found == w then none else some found))
      e (search_in-Finds xs base p pat)

module _ (b : Buffer) (v : IsValid b) where
  -- `findCRLF` finds the first CR LF among the readable bytes of a valid buffer, or null as there is none.
  pub find_crlf-Finds : Finds crlf (contents b) b.reader_index (find_crlf b)
  unfolding find_crlf
  find_crlf-Finds = search_to-Finds (contents b) b.reader_index b.writer_index 13 (10 ∷ []) (
      omega (
        arith,
        length-slice b.reader_index (b.writer_index - b.reader_index) b.storage (omega arith),
      ))

  -- `findEOL` finds the first line feed among the readable bytes of a valid buffer, or null as there is none.
  pub find_eol-Finds : Finds (newline ∷ []) (contents b) b.reader_index (find_eol b)
  unfolding find_eol
  find_eol-Finds =
      rw (readable_bytes-eq b v) (
        Finds-base (newline ∷ []) (contents b) b.reader_index _ (memchr_first (contents b) newline))

-- What a search from a position among the readable bytes returns.
pub record FindsFrom (pat : List ℕ) (b : Buffer) (start : ℕ) (r : Outcome (Option ℕ)) : Type 0 where
  pub found : Option ℕ
  pub returns : r ≡ ok found
  pub finds : Finds pat (drop (start - b.reader_index) (contents b)) start found

module _ (b : Buffer) (start : ℕ) (v : IsValid b) (lo : b.reader_index ≤ start)
    (hi : start ≤ b.writer_index) where
  abbrev tail_bytes : List ℕ
  tail_bytes = slice start (b.writer_index - start) b.storage

  -- From a position among the readable bytes of a valid buffer `findCRLF` finds the first CR LF after
  -- it, or null as there is none.
  pub find_crlf_from-FindsFrom : FindsFrom crlf b start (find_crlf_from b start)
  unfolding find_crlf_from
  find_crlf_from-FindsFrom = record {
    found = if at == b.writer_index then none else some at;
    returns = ground arith;
    finds =
        subst (λ xs. Finds crlf xs start (if at == b.writer_index then none else some at))
          (from_start b start lo)
          (search_to-Finds tail_bytes start b.writer_index 13 (10 ∷ [])
            (omega (arith, length-slice start (b.writer_index - start) b.storage (omega arith))));
  }
    where
      at : ℕ
      at = start + search_in tail_bytes crlf

  -- So does `findEOL` for the first line feed.
  pub find_eol_from-FindsFrom : FindsFrom (newline ∷ []) b start (find_eol_from b start)
  unfolding find_eol_from
  find_eol_from-FindsFrom = record {
    found = Option.map (λ i. start + i) (memchr tail_bytes newline);
    returns = ground arith;
    finds =
        subst
          (λ xs.
            Finds (newline ∷ []) xs start (Option.map (λ i. start + i) (memchr tail_bytes newline)))
          (from_start b start lo)
          (Finds-base (newline ∷ []) tail_bytes start _ (memchr_first tail_bytes newline));
  }
