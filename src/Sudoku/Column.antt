-- ===== src/Sudoku/Column.antt =====
-- net/sudoku/sudoku.cc: a column that is covered and uncovered again.
use ccnet.Prelude.{
  ℕ, suc, ◌<◌, ◌≡◌, refl, sym, ap, subst, ◌∙◌, ◌≢◌, Bool, false, List, [], ◌∷◌, arith, length,
}
use ccnet.Prelude.Maps.{put, put_other}
use ccnet.Sudoku.{
  done, ◌>>=◌, Nodes, max_nodes, unlink_header, rightwards, leftwards, cover, uncover,
}
use ccnet.Sudoku.Walk.{
  backwards, Goes, relink_header-unlink_header, around-Trail, put_own, Goes-same, Goes-backwards,
  length-backwards, Goes-weaken,
}
use ccnet.Sudoku.Undo.{IsLinked, AreOutside, unlinks, relinks}
use ccnet.Sudoku.Cover.{
  Row, nodes_of, IsOther, IsRing, AreRings, AreRowsHere, unlink_rows, IsIn, unlink_rows-Trail,
  relink_rows-Trail, unlink_rows-column,
}

-- A row of the column `c`: its nodes are no headers and linked both ways, and only `r.node` is in the
-- column.
pub record IsRow (c : ℕ) (h : Nodes) (r : Row) : Type 0 where
  pub inner : h.col r.node ≢ r.node
  pub outside : AreOutside c h r.others
  pub back : h.left (h.right r.node) ≡ r.node
  pub ring :
      Goes
        (λ k. IsOther h.col r.node k × (h.left (h.right k) ≡ k))
        h.right
        (h.right r.node)
        r.others
        r.node
  pub short : length r.others < max_nodes

abbrev pub AreRows : ℕ → Nodes → List Row → Type 0
AreRows c h [] = Unit
AreRows c h (r ∷ rs) = IsRow c h r × AreRows c h rs

-- A column that can be covered: it is in the ring of the headers, the rows are those of its ring, and
-- their other nodes are linked.
pub record IsColumn (gone : ℕ → Bool) (c : ℕ) (rows : List Row) (h : Nodes) : Type 0 where
  pub linked : IsLinked gone h
  pub own : h.col c ≡ c
  pub here : gone c ≡ false
  pub left_right : h.left (h.right c) ≡ c
  pub right_left : h.right (h.left c) ≡ c
  pub left_header : h.col (h.left c) ≡ h.left c
  pub right_header : h.col (h.right c) ≡ h.right c
  pub ring : Goes (λ k. IsIn h.col c k × (gone k ≡ false)) h.down (h.down c) (nodes_of rows) c
  pub each : AreRows c h rows
  pub all_here : AreRowsHere rows gone
  pub few : length rows < max_nodes

module _ (gone : ℕ → Bool) (c : ℕ) (rows : List Row) (h : Nodes) (v : IsColumn gone c rows h) where
  off : Nodes
  off = unlink_header c h

  off-IsLinked : IsLinked gone off
  unfolding off unlink_header
  off-IsLinked = record {
    up_down = v.linked.up_down;
    down_up = v.linked.down_up;
    col_up = v.linked.col_up;
    col_down = v.linked.col_down;
  }

  off_right : (k : ℕ) → h.col k ≢ k → off.right k ≡ h.right k
  unfolding off unlink_header
  off_right k ne =
      ap (λ i. put h.right i (h.right c) k) (put_own h.left (h.right c) c)
      ∙ put_other h.right (h.left c) (h.right c) k (λ e. ne (ap h.col e ∙ v.left_header ∙ sym e))

  off_left : (k : ℕ) → h.col k ≢ k → off.left k ≡ h.left k
  unfolding off unlink_header
  off_left k ne =
      put_other h.left (h.right c) (h.left c) k (λ e. ne (ap h.col e ∙ v.right_header ∙ sym e))

  off-AreOutside : (js : List ℕ) → AreOutside c h js → AreOutside c off js
  unfolding off unlink_header
  off-AreOutside [] o = o
  off-AreOutside (j ∷ js) (ne, o) = (ne, off-AreOutside js o)

  off-IsRing : (r : Row) → IsRow c h r → IsRing h.col c off r
  off-IsRing r i =
      let Q = IsOther h.col r.node in
      record {
        outside = off-AreOutside r.others i.outside;
        to_right =
            subst (λ k. Goes Q off.right k r.others r.node) (sym (off_right r.node i.inner))
              (Goes-same Q h.right off.right (λ k q. off_right k q.1) (h.right r.node) r.others
                r.node
                (Goes-weaken _ Q (λ k q. q.0) h.right (h.right r.node) r.others r.node i.ring));
        to_left =
            subst (λ k. Goes Q off.left k (backwards r.others) r.node)
              (sym (off_left r.node i.inner))
              (Goes-same Q h.left off.left (λ k q. off_left k q.1) (h.left r.node)
                (backwards r.others) r.node
                (Goes-weaken _ Q (λ k q. q.0) h.left (h.left r.node) (backwards r.others) r.node
                  (Goes-backwards _ h.right h.left (λ k q. q.1) r.node r.others r.node i.back
                    i.ring)));
        short = i.short;
      }

  off-AreRings : (rs : List Row) → AreRows c h rs → AreRings h.col c off rs
  unfolding AreRings
  off-AreRings [] is = is
  off-AreRings (r ∷ rs) (i, is) = (off-IsRing r i, off-AreRings rs is)

  off_col : off.col ≡ h.col
  unfolding off unlink_header
  off_col = refl

  length-nodes_of : (rs : List Row) → length (nodes_of rs) ≡ length rs
  length-nodes_of [] = refl
  length-nodes_of (r ∷ rs) = ap suc (length-nodes_of rs)

  covered : Nodes
  covered = unlink_rows rows off

  goes_down : Goes (IsIn h.col c) off.down (off.down c) (nodes_of rows) c
  unfolding off unlink_header
  goes_down = Goes-weaken _ _ (λ k p. p.0) h.down (h.down c) (nodes_of rows) c v.ring

  same_up : (k : ℕ) → h.col k ≡ c → covered.up k ≡ off.up k
  unfolding covered
  same_up =
      unlink_rows-column h.col c rows gone off off_col off-IsLinked v.all_here
        (off-AreRings rows v.each)

  goes_up : Goes (IsIn h.col c) off.up (covered.up c) (backwards (nodes_of rows)) c
  unfolding off unlink_header
  goes_up =
      subst (λ k. Goes (IsIn h.col c) off.up k (backwards (nodes_of rows)) c)
        (sym (same_up c v.own))
        (Goes-weaken _ _ (λ k p. p.0) h.up (h.up c) (backwards (nodes_of rows)) c
          (Goes-backwards _ h.down h.up (λ k p. v.linked.up_down k p.1) c (nodes_of rows) c
            (v.linked.up_down c v.here) v.ring))

  cover-off : cover c h ≡ done covered
  unfolding cover off covered
  cover-off =
      around-Trail (λ g. g.down) (rightwards unlinks) c max_nodes (off.down c) (nodes_of rows) off
        covered (omega (arith, length-nodes_of rows, v.few))
        (unlink_rows-Trail h.col c rows (off.down c) c gone off off_col off-IsLinked v.all_here
          (off-AreRings rows v.each) goes_down)

  uncover-covered : uncover c covered ≡ done h
  unfolding uncover ◌>>=◌ off covered
  uncover-covered =
      rw
        (around-Trail (λ g. g.up) (leftwards relinks) c max_nodes (covered.up c)
          (backwards (nodes_of rows)) covered off
          (omega (arith, length-backwards (nodes_of rows), length-nodes_of rows, v.few))
          (relink_rows-Trail h.col c rows (covered.up c) c gone off off_col off-IsLinked v.all_here
            (off-AreRings rows v.each) goes_up))
        (ap done (relink_header-unlink_header c h v.left_right v.right_left))

-- A column with its rows is covered, within the bound of the loops, and uncovering it then puts every
-- link and every size back.
pub uncover-cover :
    (gone : ℕ → Bool) (c : ℕ) (rows : List Row) (h : Nodes)
    → IsColumn gone c rows h
    → (g : Nodes) × (cover c h ≡ done g) × (uncover c g ≡ done h)
uncover-cover gone c rows h v =
    (covered gone c rows h v, cover-off gone c rows h v, uncover-covered gone c rows h v)
