-- ===== src/Sudoku/Tests.antt =====
-- Two columns and two rows, and the theorem at the first column.
use ccnet.Prelude.{ℕ, zero, suc, ◌≡◌, refl, Bool, false, none, List, [], ◌∷◌, arith, leb, get_or}
use ccnet.Prelude.Int.{pos}
use ccnet.Prelude.Maps.{put}
use ccnet.Sudoku.{
  Run, done, assert_failed, out_of_fuel, ◌>>=◌, Nodes, around, cover, uncover, unlink, relink,
  unlink_header, relink_header, get_min_column, min_from, increment, decrement,
}
use ccnet.Sudoku.Solver.{
  SudokuSolver, solve, try_rows, cover_row, uncover_row, write_choices, read_choice,
}
use ccnet.Sudoku.Cover.{Row}
use ccnet.Sudoku.Column.{IsColumn, uncover-cover}

abbrev array : List ℕ → ℕ → ℕ
array xs i = get_or xs i 0

-- The root, the columns 1 and 2, a row of the nodes 3 and 4, and one of the node 5.
abbrev small : Nodes
small = record {
  left = array (2 ∷ 0 ∷ 1 ∷ 4 ∷ 3 ∷ 5 ∷ []);
  right = array (1 ∷ 2 ∷ 0 ∷ 4 ∷ 3 ∷ 5 ∷ []);
  up = array (0 ∷ 3 ∷ 5 ∷ 1 ∷ 2 ∷ 4 ∷ []);
  down = array (0 ∷ 3 ∷ 4 ∷ 1 ∷ 5 ∷ 2 ∷ []);
  col = array (0 ∷ 1 ∷ 2 ∷ 1 ∷ 2 ∷ 2 ∷ []);
  name = array (0 ∷ 1 ∷ 101 ∷ 1 ∷ 101 ∷ 101 ∷ []);
  size = λ i. pos (array (0 ∷ 1 ∷ 2 ∷ []) i);
}

-- Six nodes are in use.
abbrev unused : ℕ → Bool
unused i = leb 6 i

below_six : (P : ℕ → Type 0) → P 0 → P 1 → P 2 → P 3 → P 4 → P 5 → (x : ℕ) → unused x ≡ false → P x
below_six P a b c d e f zero g = a
below_six P a b c d e f (suc zero) g = b
below_six P a b c d e f (suc (suc zero)) g = c
below_six P a b c d e f (suc (suc (suc zero))) g = d
below_six P a b c d e f (suc (suc (suc (suc zero)))) g = e
below_six P a b c d e f (suc (suc (suc (suc (suc zero))))) g = f
below_six P a b c d e f (suc (suc (suc (suc (suc (suc n)))))) g = absurd (ground (arith, g))

rows : List Row
rows = record { node = 3; others = 4 ∷ [] } ∷ []

small-IsColumn : IsColumn unused 1 rows small
unfolding rows
small-IsColumn = record {
  linked = record {
    up_down = below_six _ refl refl refl refl refl refl;
    down_up = below_six _ refl refl refl refl refl refl;
    col_up = below_six _ refl refl refl refl refl refl;
    col_down = below_six _ refl refl refl refl refl refl;
  };
  own = refl;
  here = refl;
  left_right = refl;
  right_left = refl;
  left_header = refl;
  right_header = refl;
  ring = (refl, ((λ e. omega (arith, e), refl), refl), refl);
  each = (
    record {
      inner = λ e. omega (arith, e);
      outside = (λ e. omega (arith, e), tt);
      back = refl;
      ring = (refl, ((λ e. omega (arith, e), λ e. omega (arith, e)), refl), refl);
      short = omega arith;
    },
    tt,
  );
  all_here = ((refl, tt), tt);
  few = omega arith;
}

uncover-cover_example : (g : Nodes) × (cover 1 small ≡ done g) × (uncover 1 g ≡ done small)
uncover-cover_example = uncover-cover unused 1 rows small small-IsColumn

abbrev small_solver : SudokuSolver
small_solver = record {
  nodes = small;
  columns = λ i. none;
  cur_node = 6;
  inout = λ i. 0;
  stack = [];
}

abbrev cell_of : ℕ → Run (Bool × SudokuSolver) → ℕ
cell_of i (done (solved, s)) = s.inout i
cell_of i assert_failed = 99
cell_of i out_of_fuel = 99

-- The first row covers both columns: cell 1 gets the value 1.
solve_small : cell_of 1 (solve 3 small_solver) ≡ 1
unfolding solve try_rows cover_row uncover_row write_choices read_choice around cover uncover unlink
    relink unlink_header relink_header get_min_column min_from ◌>>=◌ put decrement increment
solve_small = refl
