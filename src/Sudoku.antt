-- ===== src/Sudoku.antt =====
-- net/sudoku/sudoku.cc: the dancing links of the solver. A node is its index in `nodes_`, the columns
-- by number are `columns_`, and a loop runs on fuel.
pub mod Solver
pub mod Walk
pub mod Undo
pub mod Cover
pub mod Column
mod Tests
use ccnet.Prelude.{
  ℕ, zero, suc, ◌*◌, ◌+◌, Bool, true, false, Option, none, some, List, [], ◌∷◌, ltb, leb, ◌==◌,
}
use ccnet.Prelude.Int.{ℤ, pos, negsuc, ltb_ℤ}
use ccnet.Prelude.Maps.{put}

-- A call that returned, an `assert` that failed, and a loop that the fuel did not last for.
pub data Run {ℓ} (A : Type ℓ) : Type ℓ where
  done : A → Run A
  assert_failed out_of_fuel : Run A

infixl 5 ◌>>=◌
unfoldable pub ◌>>=◌ {ℓ κ} : {A : Type ℓ} {B : Type κ} → Run A → (A → Run B) → Run B
done a >>= f = f a
assert_failed >>= f = assert_failed
out_of_fuel >>= f = out_of_fuel

pub record Nodes : Type 0 where
  pub left : ℕ → ℕ
  pub right : ℕ → ℕ
  pub up : ℕ → ℕ
  pub down : ℕ → ℕ
  pub col : ℕ → ℕ
  pub name : ℕ → ℕ
  pub size : ℕ → ℤ

abbrev pub root : ℕ
root = 0

abbrev pub max_nodes : ℕ
max_nodes = 1 + 81 * 4 + 9 * 9 * 9 * 4

-- `size++` and `size--`.
unfoldable pub increment : ℤ → ℤ
increment (pos n) = pos (suc n)
increment (negsuc zero) = pos 0
increment (negsuc (suc n)) = negsuc n

unfoldable pub decrement : ℤ → ℤ
decrement (pos zero) = negsuc 0
decrement (pos (suc n)) = pos n
decrement (negsuc n) = negsuc (suc n)

-- `j->down->up = j->up; j->up->down = j->down; j->col->size--`.
unfoldable pub unlink : ℕ → Nodes → Nodes
unlink j h =
    let up = put h.up (h.down j) (h.up j) in
    let down = put h.down (up j) (h.down j) in
    record h { up = up; down = down; size = put h.size (h.col j) (decrement (h.size (h.col j))) }

-- `j->col->size++; j->down->up = j; j->up->down = j`.
unfoldable pub relink : ℕ → Nodes → Nodes
relink j h =
    let up = put h.up (h.down j) j in
    let down = put h.down (up j) j in
    record h { up = up; down = down; size = put h.size (h.col j) (increment (h.size (h.col j))) }

-- `c->right->left = c->left; c->left->right = c->right`.
unfoldable pub unlink_header : ℕ → Nodes → Nodes
unlink_header c h =
    let left = put h.left (h.right c) (h.left c) in
    record h { left = left; right = put h.right (left c) (h.right c) }

-- `c->right->left = c; c->left->right = c`.
unfoldable pub relink_header : ℕ → Nodes → Nodes
relink_header c h =
    let left = put h.left (h.right c) c in record h { left = left; right = put h.right (left c) c }

-- `for (x = start; x != stop; x = next(x)) body(x)`, where `next` reads the nodes after the body.
unfoldable pub around : ℕ → (Nodes → ℕ → ℕ) → (ℕ → Nodes → Run Nodes) → ℕ → ℕ → Nodes → Run Nodes
around zero next body stop x h = out_of_fuel
around (suc fuel) next body stop x h = elim (x == stop) [
  | true ↦ done h
  | false ↦ body x h >>= λ g. around fuel next body stop (next g x) g
]

abbrev pub rightwards : (ℕ → Nodes → Run Nodes) → ℕ → Nodes → Run Nodes
rightwards body row h = around max_nodes (λ g. g.right) body row (h.right row) h

abbrev pub leftwards : (ℕ → Nodes → Run Nodes) → ℕ → Nodes → Run Nodes
leftwards body row h = around max_nodes (λ g. g.left) body row (h.left row) h

unfoldable pub cover : ℕ → Nodes → Run Nodes
cover c h =
    let g = unlink_header c h in
    around max_nodes (λ g. g.down) (rightwards (λ j g. done (unlink j g))) c (g.down c) g

unfoldable pub uncover : ℕ → Nodes → Run Nodes
uncover c h =
    around max_nodes (λ g. g.up) (leftwards (λ j g. done (relink j g))) c (h.up c) h >>= λ g.
    done (relink_header c g)

-- `put_left`.
unfoldable pub put_left : ℕ → ℕ → Nodes → Nodes
put_left old new h =
    let left = put h.left new (h.left old) in
    let right = put h.right new old in
    let right' = put right (left old) new in record h { left = put left old new; right = right' }

unfoldable pub put_up : ℕ → ℕ → Nodes → Nodes
put_up old new h =
    let up = put h.up new (h.up old) in
    let down = put h.down new old in
    let down' = put down (up old) new in
    record h {
      up = put up old new;
      down = down';
      size = put h.size old (increment (h.size old));
      col = put h.col new old;
    }

-- The rest of the loop of `get_min_column`, from `cc` on, with the best column so far.
unfoldable pub min_from : ℕ → ℕ → ℕ → Nodes → Run ℕ
min_from zero c cc h = out_of_fuel
min_from (suc fuel) c cc h = elim (cc == root) [
  | true ↦ done c
  | false ↦ elim (ltb_ℤ (h.size cc) (h.size c)) [
    | true ↦ elim (ltb_ℤ (pos 1) (h.size cc)) [
      | true ↦ min_from fuel cc (h.right cc) h
      | false ↦ done cc
    ]
    | false ↦ min_from fuel c (h.right cc) h
  ]
]

unfoldable pub get_min_column : Nodes → Run ℕ
get_min_column h =
    let c = h.right root in
    elim (ltb_ℤ (pos 1) (h.size c)) [ true ↦ min_from max_nodes c (h.right c) h | false ↦ done c ]
