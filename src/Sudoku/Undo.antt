-- ===== src/Sudoku/Undo.antt =====
-- net/sudoku/sudoku.cc: `cover` and `uncover` one after the other.
use ccnet.Prelude.{
  ℕ, ◌≡◌, refl, sym, ap, ◌∙◌, ◌≢◌, Bool, true, false, List, [], ◌∷◌, arith, ◌==◌, Bool-cases, inl,
  inr, ==_iff,
}
use ccnet.Prelude.Maps.{put, put_at, put_other}
use ccnet.Sudoku.{Run, done, Nodes, unlink, relink}
use ccnet.Sudoku.Walk.{backwards, Goes, relink-unlink, Trail, Trail-append, put_own, Goes-split}

-- The rings of the columns are linked both ways, but for the nodes that are unlinked.
pub record IsLinked (gone : ℕ → Bool) (h : Nodes) : Type 0 where
  pub up_down : (x : ℕ) → gone x ≡ false → h.up (h.down x) ≡ x
  pub down_up : (x : ℕ) → gone x ≡ false → h.down (h.up x) ≡ x
  pub col_up : (x : ℕ) → gone x ≡ false → h.col (h.up x) ≡ h.col x
  pub col_down : (x : ℕ) → gone x ≡ false → h.col (h.down x) ≡ h.col x

cut_back :
    (u d : ℕ → ℕ) (j x : ℕ)
    → u (d j) ≡ j
    → u (d x) ≡ x
    → x ≢ j
    → put u (d j) (u j) (put d (u j) (d j) x) ≡ x
unfolding put
cut_back u d j x e f ne = elim (Bool-cases (x == u j)) [
  | inl b ↦ rw b (put_at u (d j) (u j) ∙ sym ((==_iff x (u j)).0 b))
  | inr b ↦ rw b (put_other u (d j) (u j) (d x) (λ q. ne (sym f ∙ ap u q ∙ e)) ∙ f)
]

cut_col :
    (c u : ℕ → ℕ) (k j x : ℕ)
    → c (u j) ≡ c j
    → c k ≡ c j
    → c (u x) ≡ c x
    → c (put u k (u j) x) ≡ c x
unfolding put
cut_col c u k j x e f g = elim (Bool-cases (x == k)) [
  | inl b ↦ rw b (e ∙ sym f ∙ ap c (sym ((==_iff x k).0 b)))
  | inr b ↦ rw b g
]

not_gone : (gone : ℕ → Bool) (j x : ℕ) → put gone j true x ≡ false → (x ≢ j) × (gone x ≡ false)
unfolding put
not_gone gone j x e = ground (arith, e)

module _ (gone : ℕ → Bool) (j : ℕ) (h : Nodes) (v : IsLinked gone h) (here : gone j ≡ false) where
  down_law : (unlink j h).down ≡ put h.down (h.up j) (h.down j)
  unfolding unlink
  down_law = ap (λ k. put h.down k (h.down j)) (put_own h.up (h.down j) j)

  unlink-IsLinked : IsLinked (put gone j true) (unlink j h)
  unfolding unlink
  unlink-IsLinked = record {
    up_down = λ x g.
        let (ne, g') = not_gone gone j x g in
        ap (put h.up (h.down j) (h.up j)) (ap (λ f. f x) down_law)
        ∙ cut_back h.up h.down j x (v.up_down j here) (v.up_down x g') ne;
    down_up = λ x g.
        let (ne, g') = not_gone gone j x g in
        ap (λ f. f (put h.up (h.down j) (h.up j) x)) down_law
        ∙ cut_back h.down h.up j x (v.down_up j here) (v.down_up x g') ne;
    col_up = λ x g.
        let (ne, g') = not_gone gone j x g in
        cut_col h.col h.up (h.down j) j x (v.col_up j here) (v.col_down j here) (v.col_up x g');
    col_down = λ x g.
        let (ne, g') = not_gone gone j x g in
        ap (λ f. h.col (f x)) down_law
        ∙ cut_col h.col h.down (h.up j) j x (v.col_down j here) (v.col_up j here) (v.col_down x g');
  }

  -- The other columns are as they were.
  same_down : (x : ℕ) → h.col x ≢ h.col j → (unlink j h).down x ≡ h.down x
  same_down x ne =
      ap (λ f. f x) down_law
      ∙ put_other h.down (h.up j) (h.down j) x (λ e. ne (ap h.col e ∙ v.col_up j here))

  same_up : (x : ℕ) → h.col x ≢ h.col j → (unlink j h).up x ≡ h.up x
  unfolding unlink
  same_up x ne = put_other h.up (h.down j) (h.up j) x (λ e. ne (ap h.col e ∙ v.col_down j here))

pub unlink_all : List ℕ → Nodes → Nodes
unlink_all [] h = h
unlink_all (j ∷ js) h = unlink_all js (unlink j h)

pub all_gone : List ℕ → (ℕ → Bool) → ℕ → Bool
all_gone [] gone = gone
all_gone (j ∷ js) gone = all_gone js (put gone j true)

-- Each of the nodes is linked when its turn comes.
abbrev pub AreHere : List ℕ → (ℕ → Bool) → Type 0
AreHere [] gone = Unit
AreHere (j ∷ js) gone = (gone j ≡ false) × AreHere js (put gone j true)

-- None of the nodes is in the column.
abbrev pub AreOutside : ℕ → Nodes → List ℕ → Type 0
AreOutside c h [] = Unit
AreOutside c h (j ∷ js) = (h.col j ≢ c) × AreOutside c h js

-- Links of the other kinds are left alone.
pub unlink_all-left : (js : List ℕ) (h : Nodes) → (unlink_all js h).left ≡ h.left
unfolding unlink_all unlink
unlink_all-left [] h = refl
unlink_all-left (j ∷ js) h = unlink_all-left js (unlink j h)

pub unlink_all-right : (js : List ℕ) (h : Nodes) → (unlink_all js h).right ≡ h.right
unfolding unlink_all unlink
unlink_all-right [] h = refl
unlink_all-right (j ∷ js) h = unlink_all-right js (unlink j h)

pub unlink_all-col : (js : List ℕ) (h : Nodes) → (unlink_all js h).col ≡ h.col
unfolding unlink_all unlink
unlink_all-col [] h = refl
unlink_all-col (j ∷ js) h = unlink_all-col js (unlink j h)

pub unlink_all-IsLinked :
    (js : List ℕ) (gone : ℕ → Bool) (h : Nodes)
    → IsLinked gone h
    → AreHere js gone
    → IsLinked (all_gone js gone) (unlink_all js h)
unfolding unlink_all all_gone
unlink_all-IsLinked [] gone h v u = v
unlink_all-IsLinked (j ∷ js) gone h v (e, u) =
    unlink_all-IsLinked js (put gone j true) (unlink j h) (unlink-IsLinked gone j h v e) u

AreOutside-unlink :
    (c j : ℕ) (h : Nodes) (js : List ℕ) → AreOutside c h js → AreOutside c (unlink j h) js
unfolding unlink
AreOutside-unlink c j h [] o = o
AreOutside-unlink c j h (k ∷ ks) (ne, o) = (ne, AreOutside-unlink c j h ks o)

pub unlink_all-outside :
    (c : ℕ) (js : List ℕ) (h : Nodes) (ks : List ℕ)
    → AreOutside c h ks
    → AreOutside c (unlink_all js h) ks
unfolding unlink_all
unlink_all-outside c [] h ks o = o
unlink_all-outside c (j ∷ js) h ks o =
    unlink_all-outside c js (unlink j h) ks (AreOutside-unlink c j h ks o)

pub unlink_all-column :
    (c : ℕ) (js : List ℕ) (gone : ℕ → Bool) (h : Nodes)
    → IsLinked gone h
    → AreHere js gone
    → AreOutside c h js
    → (x : ℕ) → h.col x ≡ c
    → ((unlink_all js h).down x ≡ h.down x) × ((unlink_all js h).up x ≡ h.up x)
unfolding unlink_all
unlink_all-column c [] gone h v u o x e = (refl, refl)
unlink_all-column c (j ∷ js) gone h v (here, u) (ne, o) x e =
    let (d, p) =
      unlink_all-column c js (put gone j true) (unlink j h) (unlink-IsLinked gone j h v here) u
        (AreOutside-unlink c j h js o) x (unfold unlink in e) in
    let other : h.col x ≢ h.col j = λ f. ne (sym f ∙ e) in
    (d ∙ same_down gone j h v here x other, p ∙ same_up gone j h v here x other)

abbrev pub unlinks : ℕ → Nodes → Run Nodes
unlinks j g = done (unlink j g)

abbrev pub relinks : ℕ → Nodes → Run Nodes
relinks j g = done (relink j g)

pub unlink_all-Trail :
    (Q : ℕ → Type 0) (row : ℕ)
    → ((k : ℕ) → Q k → k ≢ row)
    → (js : List ℕ) (x y : ℕ) (h : Nodes) → Goes Q h.right x js y
    → Trail (λ g. g.right) unlinks row x js y h (unlink_all js h)
unfolding unlink_all unlink
unlink_all-Trail Q row q [] x y h e = (e, refl)
unlink_all-Trail Q row q (j ∷ js) x y h (e, p, t) =
    (e, q j p, unlink j h, refl, unlink_all-Trail Q row q js (h.right j) y (unlink j h) t)

pub relink_all-Trail :
    (Q : ℕ → Type 0) (row : ℕ)
    → ((k : ℕ) → Q k → k ≢ row)
    → (js : List ℕ) (x y : ℕ) (gone : ℕ → Bool) (h : Nodes) → IsLinked gone h
    → AreHere js gone
    → Goes Q h.left x (backwards js) y
    → Trail (λ g. g.left) relinks row x (backwards js) y (unlink_all js h) h
unfolding unlink_all unlink relink
relink_all-Trail Q row q [] x y gone h v u e = (e, refl)
relink_all-Trail Q row q (j ∷ js) x y gone h v (here, u) t =
    let (z, a, (e, p, f)) = Goes-split Q h.left x (backwards js) (j ∷ []) y t in
    Trail-append (λ g. g.left) relinks row x (backwards js) (j ∷ []) z y
      (unlink_all js (unlink j h)) (unlink j h) h
      (relink_all-Trail Q row q js x z (put gone j true) (unlink j h)
        (unlink-IsLinked gone j h v here) u a)
      (
        e,
        q j p,
        relink j (unlink j h),
        refl,
        (f, relink-unlink j h (v.up_down j here) (v.down_up j here)),
      )
