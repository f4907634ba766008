-- ===== src/BoundedBlockingQueue/Tests.antt =====
-- A queue of one place, a producer that waits for the place and one that does not.
use ccnet.Prelude.{
  ℕ, ◌≡◌, refl, ap, ◌==◌, if◌then◌else◌, Option, none, some, List, [], ◌∷◌, ◌++◌, arith, length,
  drop,
}
use ccnet.Condition.{one_by_one, wait, notify, resume}
use ccnet.BoundedBlockingQueue.{CircularBuffer, BoundedBlockingQueue, is_nil, create, put, take}
use ccnet.BoundedBlockingQueue.Flow.{
  put_pass, take_pass, put_resumed, puts, puts_again, takes, rests, goes_on, run-IsFair, given, got,
  IsFair,
}

-- A circular buffer as a list with its capacity; a push onto a full one overwrites the oldest.
record Ring : Type 0 where
  stored : List ℕ
  places : ℕ

abbrev first : List ℕ → Option ℕ
first [] = none
first (x ∷ _) = some x

first_lem : (l : List ℕ) (x : ℕ) (xs : List ℕ) → l ≡ x ∷ xs → first l ≡ some x
first_lem l x xs e = ap first e

abbrev ring : CircularBuffer ℕ Ring
ring = record {
  make = λ n. record { stored = []; places = n };
  items = λ b. b.stored;
  max_items = λ b. b.places;
  is_full = λ b. length b.stored == b.places;
  is_empty = λ b. is_nil b.stored;
  front = λ b. first b.stored;
  push_back = λ x b. record b {
    stored =
        if length b.stored == b.places then drop 1 (b.stored ++ (x ∷ [])) else b.stored ++ (x ∷ []);
  };
  pop_front = λ b. record b { stored = drop 1 b.stored };
  items_make = λ n. refl;
  max_items_make = λ n. refl;
  full_law = λ b. refl;
  empty_law = λ b. refl;
  front_law = λ b x xs e. first_lem b.stored x xs e;
  push_law = λ b x e. rw e refl;
  push_max = λ b x. refl;
  pop_law = λ b x xs e. ap (drop 1) e;
  pop_max = λ b. refl;
}

abbrev one : BoundedBlockingQueue Ring
one = (put_pass ring one_by_one 7 (create ring 1)).left

-- The queue is full: the second producer waits until the consumer has taken the first item.
abbrev two : BoundedBlockingQueue Ring
two = (put_pass ring one_by_one 8 one).left

abbrev three : BoundedBlockingQueue Ring
three = (take_pass ring one_by_one two).left

abbrev four : BoundedBlockingQueue Ring
four = (put_pass ring one_by_one 8 (put_resumed ring one_by_one three)).left

waits_and_goes :
    (two.not_full.waiting ≡ 1) × (three.not_full.woken ≡ 1) × (four.queue.stored ≡ 8 ∷ [])
unfolding create put take wait notify resume
waits_and_goes = (refl, refl, refl)

run-IsFair_example : (7 ∷ 8 ∷ [] ≡ (7 ∷ []) ++ four.queue.stored) × IsFair ring one_by_one 1 four
unfolding create put take wait notify resume given got
run-IsFair_example = run-IsFair ring one_by_one 1 (
    goes_on (puts (create ring 1) 7) (
      goes_on (puts one 8)
        (goes_on (takes two) (goes_on (puts_again three 8 (omega arith)) (rests four)))))
