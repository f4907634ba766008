-- ===== src/Sudoku/Cover.antt =====
-- net/sudoku/sudoku.cc: `cover` and `uncover` of a column with its rows.
use ccnet.Prelude.{ℕ, ◌<◌, ◌≡◌, refl, sym, ap, subst, ◌∙◌, ◌≢◌, Bool, List, [], ◌∷◌, arith, length}
use ccnet.Sudoku.{Nodes, max_nodes, rightwards, leftwards}
use ccnet.Sudoku.Walk.{
  backwards, Goes, Trail, Trail-append, around-Trail, Goes-split, Goes-same, length-backwards,
}
use ccnet.Sudoku.Undo.{
  IsLinked, unlink_all, all_gone, AreHere, AreOutside, unlink_all-left, unlink_all-right,
  unlink_all-col, unlink_all-IsLinked, unlink_all-column, unlinks, relinks, unlink_all-Trail,
  relink_all-Trail, unlink_all-outside,
}

-- A row of a column: its node there, and the others from that one to the right.
pub record Row : Type 0 where
  pub node : ℕ
  pub others : List ℕ

abbrev pub nodes_of : List Row → List ℕ
nodes_of [] = []
nodes_of (r ∷ rs) = r.node ∷ nodes_of rs

-- A node of the row `r`, other than its node `r.node`.
abbrev pub IsOther : (ℕ → ℕ) → ℕ → ℕ → Type 0
IsOther col node k = (k ≢ node) × (col k ≢ k)

-- The ring of a row in both directions, with `col` for the columns.
pub record IsRing (col : ℕ → ℕ) (c : ℕ) (h : Nodes) (r : Row) : Type 0 where
  pub outside : AreOutside c h r.others
  pub to_right : Goes (IsOther col r.node) h.right (h.right r.node) r.others r.node
  pub to_left : Goes (IsOther col r.node) h.left (h.left r.node) (backwards r.others) r.node
  pub short : length r.others < max_nodes

unfoldable pub AreRings : (ℕ → ℕ) → ℕ → Nodes → List Row → Type 0
AreRings col c h [] = Unit
AreRings col c h (r ∷ rs) = IsRing col c h r × AreRings col c h rs

IsRing-unlink_all :
    (col : ℕ → ℕ) (c : ℕ) (js : List ℕ) (h : Nodes) (r : Row)
    → IsRing col c h r
    → IsRing col c (unlink_all js h) r
IsRing-unlink_all col c js h r i = record {
  outside = unlink_all-outside c js h r.others i.outside;
  to_right =
      subst (λ f. Goes (IsOther col r.node) f (f r.node) r.others r.node)
        (sym (unlink_all-right js h)) i.to_right;
  to_left =
      subst (λ f. Goes (IsOther col r.node) f (f r.node) (backwards r.others) r.node)
        (sym (unlink_all-left js h)) i.to_left;
  short = i.short;
}

AreRings-unlink_all :
    (col : ℕ → ℕ) (c : ℕ) (js : List ℕ) (h : Nodes) (rs : List Row)
    → AreRings col c h rs
    → AreRings col c (unlink_all js h) rs
unfolding AreRings
AreRings-unlink_all col c js h [] i = i
AreRings-unlink_all col c js h (r ∷ rs) (i, is) =
    (IsRing-unlink_all col c js h r i, AreRings-unlink_all col c js h rs is)

abbrev pub AreRowsHere : List Row → (ℕ → Bool) → Type 0
AreRowsHere [] gone = Unit
AreRowsHere (r ∷ rs) gone = AreHere r.others gone × AreRowsHere rs (all_gone r.others gone)

pub unlink_rows : List Row → Nodes → Nodes
unlink_rows [] h = h
unlink_rows (r ∷ rs) h = unlink_rows rs (unlink_all r.others h)

-- A node of the column `c`, other than its header.
abbrev pub IsIn : (ℕ → ℕ) → ℕ → ℕ → Type 0
IsIn col c k = (k ≢ c) × (col k ≡ c)

module _ (col : ℕ → ℕ) (c : ℕ) where
  pub unlink_rows-Trail :
      (rs : List Row) (x y : ℕ) (gone : ℕ → Bool) (h : Nodes)
      → h.col ≡ col
      → IsLinked gone h
      → AreRowsHere rs gone
      → AreRings col c h rs
      → Goes (IsIn col c) h.down x (nodes_of rs) y
      → Trail (λ g. g.down) (rightwards unlinks) c x (nodes_of rs) y h (unlink_rows rs h)
  unfolding unlink_rows AreRings
  unlink_rows-Trail [] x y gone h hc v u is e = (e, refl)
  unlink_rows-Trail (r ∷ rs) x y gone h hc v (u, us) (i, is) (e, (ne, ec), t) =
      let m = unlink_all r.others h in
      let same : (k : ℕ) → IsIn col c k → m.down k ≡ h.down k = λ k (n, kc).
        (unlink_all-column c r.others gone h v u i.outside k (ap (λ f. f k) hc ∙ kc)).0 in
      (
        e,
        ne,
        m,
        around-Trail (λ g. g.right) unlinks r.node max_nodes (h.right r.node) r.others h m i.short
            (unlink_all-Trail (IsOther col r.node) r.node (λ k q. q.0) r.others (h.right r.node)
              r.node h i.to_right),
        subst
            (λ k. Trail (λ g. g.down) (rightwards unlinks) c k (nodes_of rs) y m (unlink_rows rs m))
            (sym (same r.node (ne, ec)))
            (unlink_rows-Trail rs (h.down r.node) y (all_gone r.others gone) m
              (unlink_all-col r.others h ∙ hc) (unlink_all-IsLinked r.others gone h v u) us
              (AreRings-unlink_all col c r.others h rs is)
              (Goes-same (IsIn col c) h.down m.down same (h.down r.node) (nodes_of rs) y t)),
      )

  pub relink_rows-Trail :
      (rs : List Row) (x y : ℕ) (gone : ℕ → Bool) (h : Nodes)
      → h.col ≡ col
      → IsLinked gone h
      → AreRowsHere rs gone
      → AreRings col c h rs
      → Goes (IsIn col c) h.up x (backwards (nodes_of rs)) y
      → Trail (λ g. g.up) (leftwards relinks) c x (backwards (nodes_of rs)) y (unlink_rows rs h) h
  unfolding unlink_rows AreRings
  relink_rows-Trail [] x y gone h hc v u is e = (e, refl)
  relink_rows-Trail (r ∷ rs) x y gone h hc v (u, us) (i, is) t =
      let m = unlink_all r.others h in
      let (z, a, (e, (ne, ec), f)) =
        Goes-split (IsIn col c) h.up x (backwards (nodes_of rs)) (r.node ∷ []) y t in
      let same : (k : ℕ) → IsIn col c k → m.up k ≡ h.up k = λ k (n, kc).
        (unlink_all-column c r.others gone h v u i.outside k (ap (λ f. f k) hc ∙ kc)).1 in
      Trail-append (λ g. g.up) (leftwards relinks) c x (backwards (nodes_of rs)) (r.node ∷ []) z y
        (unlink_rows rs m) m h
        (relink_rows-Trail rs x z (all_gone r.others gone) m (unlink_all-col r.others h ∙ hc)
          (unlink_all-IsLinked r.others gone h v u) us (AreRings-unlink_all col c r.others h rs is)
          (Goes-same (IsIn col c) h.up m.up same x (backwards (nodes_of rs)) z a))
        (
          e,
          ne,
          h,
          around-Trail (λ g. g.left) relinks r.node max_nodes (m.left r.node) (backwards r.others) m
              h (omega (arith, length-backwards r.others, i.short))
              (relink_all-Trail (IsOther col r.node) r.node (λ k q. q.0) r.others (m.left r.node)
                r.node gone h v u
                (subst
                  (λ k. Goes (IsOther col r.node) h.left (k r.node) (backwards r.others) r.node)
                  (sym (unlink_all-left r.others h)) i.to_left)),
          (f, refl),
        )

  pub unlink_rows-column :
      (rs : List Row) (gone : ℕ → Bool) (h : Nodes)
      → h.col ≡ col
      → IsLinked gone h
      → AreRowsHere rs gone
      → AreRings col c h rs
      → (x : ℕ) → col x ≡ c
      → (unlink_rows rs h).up x ≡ h.up x
  unfolding unlink_rows AreRings
  unlink_rows-column [] gone h hc v u is x e = refl
  unlink_rows-column (r ∷ rs) gone h hc v (u, us) (i, is) x e =
      unlink_rows-column rs (all_gone r.others gone) (unlink_all r.others h)
        (unlink_all-col r.others h ∙ hc) (unlink_all-IsLinked r.others gone h v u) us
        (AreRings-unlink_all col c r.others h rs is) x e
      ∙ (unlink_all-column c r.others gone h v u i.outside x (ap (λ f. f x) hc ∙ e)).1
