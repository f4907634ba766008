-- ===== src/Sudoku/Solver.antt =====
-- net/sudoku/sudoku.cc: the solver of a puzzle, over the dancing links. A cell of the board is a number;
-- the two-dimensional arrays of flags are indexed by ten times the first index plus the second.
use ccnet.Prelude.{
  ◌++◌, ℕ, zero, suc, ◌+◌, ◌-◌, ◌*◌, ◌/◌, ◌%◌, Bool, true, false, not, ◌&&◌, ◌||◌, Option, none,
  some, List, [], ◌∷◌, ltb, leb, ◌==◌, if◌then◌else◌, length, get_or,
}
use ccnet.Prelude.Int.{pos}
use ccnet.Prelude.Maps.{put}
use ccnet.Sudoku.{
  Run, done, assert_failed, out_of_fuel, ◌>>=◌, Nodes, root, max_nodes, rightwards, leftwards,
  cover, uncover, put_left, put_up, get_min_column,
}

pub record SudokuSolver : Type 0 where
  pub nodes : Nodes
  pub columns : ℕ → Option ℕ
  pub cur_node : ℕ
  pub inout : ℕ → ℕ
  pub stack : List ℕ

abbrev pub k_row : ℕ
k_row = 100

abbrev pub k_col : ℕ
k_col = 200

abbrev pub k_box : ℕ
k_box = 300

abbrev pub k_cells : ℕ
k_cells = 81

abbrev pub get_row_col : ℕ → ℕ → ℕ
get_row_col row val = k_row + row * 10 + val

abbrev pub get_col_col : ℕ → ℕ → ℕ
get_col_col col val = k_col + col * 10 + val

abbrev pub get_box_col : ℕ → ℕ → ℕ
get_box_col box val = k_box + box * 10 + val

abbrev pub box_of : ℕ → ℕ
box_of i = i / 9 / 3 * 3 + i % 9 / 3

unfoldable pub assert : Bool → Run (Unit {0})
assert true = done tt
assert false = assert_failed

-- A fresh node that is linked to itself.
abbrev pub fresh : ℕ → ℕ → ℕ → Nodes → Nodes
fresh r c n h = record {
  left = put h.left r r;
  right = put h.right r r;
  up = put h.up r r;
  down = put h.down r r;
  col = put h.col r c;
  name = put h.name r n;
  size = put h.size r (pos 0);
}

unfoldable pub new_column : ℕ → SudokuSolver → Run (ℕ × SudokuSolver)
new_column n s = assert (ltb s.cur_node max_nodes) >>= λ _. done (
  s.cur_node,
  record s { nodes = fresh s.cur_node s.cur_node n s.nodes; cur_node = suc s.cur_node },
)

abbrev pub is_none : Option ℕ → Bool
is_none none = true
is_none (some c) = false

unfoldable pub append_column : ℕ → SudokuSolver → Run SudokuSolver
append_column n s = assert (is_none (s.columns n)) >>= λ _. new_column n s >>= λ (c, t).
    done (record t { nodes = put_left root c t.nodes; columns = put t.columns n (some c) })

unfoldable pub new_row : ℕ → SudokuSolver → Run (ℕ × SudokuSolver)
new_row n s = elim (s.columns n) [
  | none ↦ assert_failed
  | some c ↦ assert (ltb s.cur_node max_nodes) >>= λ _. done (
    s.cur_node,
    record s {
      nodes = put_up c s.cur_node (fresh s.cur_node c n s.nodes);
      cur_node = suc s.cur_node;
    },
  )
]

-- `for (i = first; i < first + n; ++i) body(i)`.
unfoldable pub for_each {ℓ} : {S : Type ℓ} → ℕ → ℕ → (ℕ → S → Run S) → S → Run S
for_each zero first body s = done s
for_each (suc n) first body s = body first s >>= λ t. for_each n (suc first) body t

-- `rows`, `cols` and `boxes`: which values a row, a column or a box of the board has.
pub record Seen : Type 0 where
  pub rows : ℕ → Bool
  pub cols : ℕ → Bool
  pub boxes : ℕ → Bool

abbrev pub flag : ℕ → ℕ → ℕ
flag i v = 10 * i + v

unfoldable pub mark : ℕ → ℕ → Seen → Seen
mark i val seen = record {
  rows = put seen.rows (flag (i / 9) val) true;
  cols = put seen.cols (flag (i % 9) val) true;
  boxes = put seen.boxes (flag (box_of i) val) true;
}

unfoldable pub mark_all : (ℕ → ℕ) → Run Seen
mark_all board =
    for_each k_cells 0 (λ i seen. done (mark i (board i) seen))
      (record { rows = λ _. false; cols = λ _. false; boxes = λ _. false })

unfoldable pub append_unless : Bool → ℕ → SudokuSolver → Run SudokuSolver
append_unless true n s = done s
append_unless false n s = append_column n s

unfoldable pub cell_columns : SudokuSolver → Run SudokuSolver
cell_columns s = for_each k_cells 0 (λ i t. append_unless (not (t.inout i == 0)) i t) s

unfoldable pub value_columns : Seen → SudokuSolver → Run SudokuSolver
value_columns seen s =
    for_each 9 0
      (λ i t.
        for_each 9 1
          (λ v t. append_unless (seen.rows (flag i v)) (get_row_col i v) t >>= λ t.
            append_unless (seen.cols (flag i v)) (get_col_col i v) t >>= λ t.
            append_unless (seen.boxes (flag i v)) (get_box_col i v) t)
          t)
      s

-- The four nodes of the choice of `v` for the cell `i`.
unfoldable pub add_choice : ℕ → ℕ → SudokuSolver → Run SudokuSolver
add_choice i v s = new_row i s >>= λ (n0, s). new_row (get_row_col (i / 9) v) s >>= λ (nr, s).
    new_row (get_col_col (i % 9) v) s >>= λ (nc, s).
    new_row (get_box_col (box_of i) v) s >>= λ (nb, s).
    done (record s { nodes = put_left n0 nb (put_left n0 nc (put_left n0 nr s.nodes)) })

abbrev pub is_taken : Seen → ℕ → ℕ → Bool
is_taken seen i v =
    seen.rows (flag (i / 9) v) || seen.cols (flag (i % 9) v) || seen.boxes (flag (box_of i) v)

unfoldable pub choices : Seen → SudokuSolver → Run SudokuSolver
choices seen s =
    for_each k_cells 0
      (λ i t. elim (t.inout i == 0) [
        | true ↦
            for_each 9 1
              (λ v t. elim (is_taken seen i v) [ true ↦ done t | false ↦ add_choice i v t ]) t
        | false ↦ done t
      ])
      s

abbrev pub no_nodes : Nodes
no_nodes = record {
  left = λ _. 0;
  right = λ _. 0;
  up = λ _. 0;
  down = λ _. 0;
  col = λ _. 0;
  name = λ _. 0;
  size = λ _. pos 0;
}

-- `SudokuSolver::SudokuSolver`.
unfoldable pub create : (ℕ → ℕ) → Run SudokuSolver
create board =
    new_column 0
      (record { nodes = no_nodes; columns = λ _. none; cur_node = 0; inout = board; stack = [] })
    >>= λ (c, s). mark_all board >>= λ seen.
        cell_columns s >>= λ s. value_columns seen s >>= λ s. choices seen s

-- The loop that reads the cell and the value of a choice off its nodes, where -1 is `none`.
unfoldable pub read_choice : ℕ → Nodes → ℕ → Option ℕ → Option ℕ → Run (ℕ × ℕ)
read_choice zero h n cell val = out_of_fuel
read_choice (suc fuel) h n (some cell) (some val) = done (cell, val)
read_choice (suc fuel) h n cell val = elim (ltb (h.name n) 100) [
  | true ↦ read_choice fuel h (h.right n) (some (h.name n)) val
  | false ↦ read_choice fuel h (h.right n) cell (some (h.name n % 10))
]

unfoldable pub write_choices : Nodes → List ℕ → (ℕ → ℕ) → Run (ℕ → ℕ)
write_choices h [] board = done board
write_choices h (n ∷ ns) board =
    read_choice 5 h n none none >>= λ (cell, val). write_choices h ns (put board cell val)

abbrev pub pop_back : List ℕ → List ℕ
pop_back [] = []
pop_back (x ∷ []) = []
pop_back (x ∷ y ∷ ys) = x ∷ pop_back (y ∷ ys)

-- A row of the column that `solve` branches on: its other columns are covered, or uncovered.
unfoldable pub cover_row : ℕ → Nodes → Run Nodes
cover_row row h = rightwards (λ j g. cover (g.col j) g) row h

unfoldable pub uncover_row : ℕ → Nodes → Run Nodes
uncover_row row h = leftwards (λ j g. uncover (g.col j) g) row h

abbrev pub push : ℕ → SudokuSolver → SudokuSolver
push row s = record s { stack = s.stack ++ (row ∷ []) }

-- The loop of `solve` from `row` on, which `rec` is the recursive call of.
unfoldable pub try_rows :
    (SudokuSolver → Run (Bool × SudokuSolver))
    → ℕ
    → ℕ
    → ℕ
    → SudokuSolver
    → Run (Bool × SudokuSolver)
try_rows rec zero c row s = out_of_fuel
try_rows rec (suc fuel) c row s = elim (row == c) [
  | true ↦ uncover c s.nodes >>= λ h. done (false, record s { nodes = h })
  | false ↦ cover_row row s.nodes >>= λ h.
      rec (record (push row s) { nodes = h }) >>= λ (solved, t). elim solved [
        | true ↦ done (true, t)
        | false ↦ uncover_row row t.nodes >>= λ g.
            try_rows rec fuel c (g.down row) (record t { nodes = g; stack = pop_back t.stack })
      ]
]

-- The fuel of `solve` bounds the depth of its recursion.
unfoldable pub solve : ℕ → SudokuSolver → Run (Bool × SudokuSolver)
solve zero s = out_of_fuel
solve (suc fuel) s = elim (s.nodes.left root == root) [
  | true ↦
      write_choices s.nodes s.stack s.inout >>= λ board. done (true, record s { inout = board })
  | false ↦ get_min_column s.nodes >>= λ c.
      cover c s.nodes >>= λ h. try_rows (solve fuel) max_nodes c (h.down c) (record s { nodes = h })
]

abbrev pub all_digits : List ℕ → Bool
all_digits [] = true
all_digits (p ∷ ps) = leb 48 p && leb p 57 && all_digits ps

-- The characters of the solution, or none where the answer is `kNoSolution`.
unfoldable pub solve_sudoku : List ℕ → Run (Option (List ℕ))
solve_sudoku puzzle = assert (length puzzle == k_cells) >>= λ _. elim (all_digits puzzle) [
  | false ↦ done none
  | true ↦ create (λ i. get_or puzzle i 48 - 48) >>= λ s. solve (suc k_cells) s >>= λ (solved, t).
      done (if solved then some (text k_cells 0 t.inout) else none)
]
  where
    text : ℕ → ℕ → (ℕ → ℕ) → List ℕ
    text zero i board = []
    text (suc n) i board = (board i + 48) ∷ text n (suc i) board
