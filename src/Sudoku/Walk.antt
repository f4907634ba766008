-- ===== src/Sudoku/Walk.antt =====
-- net/sudoku/sudoku.cc: the loops over the ring of a column or of a row, and single links.
use ccnet.Prelude.{
  ℕ, zero, suc, ◌<◌, ◌≡◌, refl, sym, ap, subst, ◌∙◌, ◌≢◌, List, [], ◌∷◌, ◌++◌, arith, ◌==◌, ==_refl,
  Bool-cases, inl, inr, ==_iff, length, length-append,
}
use ccnet.Prelude.Int.{ℤ, pos, negsuc}
use ccnet.Prelude.Maps.{put, put_at, put_again, put_same}
use ccnet.Sudoku.{
  Run, done, ◌>>=◌, Nodes, increment, decrement, unlink, relink, unlink_header, relink_header,
  around,
}

abbrev pub backwards {ℓ} : {A : Type ℓ} → List A → List A
backwards [] = []
backwards (x ∷ xs) = backwards xs ++ (x ∷ [])

-- The values that a loop variable takes from `x` on, before it is `y`.
abbrev pub Goes : (ℕ → Type 0) → (ℕ → ℕ) → ℕ → List ℕ → ℕ → Type 0
Goes P f x [] y = x ≡ y
Goes P f x (k ∷ ks) y = (x ≡ k) × P k × Goes P f (f k) ks y

pub Goes-append :
    (P : ℕ → Type 0) (f : ℕ → ℕ) (x : ℕ) (ks ls : List ℕ) (y z : ℕ)
    → Goes P f x ks y
    → Goes P f y ls z
    → Goes P f x (ks ++ ls) z
Goes-append P f x [] ls y z e t = subst (λ k. Goes P f k ls z) (sym e) t
Goes-append P f x (k ∷ ks) ls y z (e, p, s) t = (e, p, Goes-append P f (f k) ks ls y z s t)

pub Goes-split :
    (P : ℕ → Type 0) (f : ℕ → ℕ) (x : ℕ) (ks ls : List ℕ) (z : ℕ)
    → Goes P f x (ks ++ ls) z
    → (y : ℕ) × Goes P f x ks y × Goes P f y ls z
Goes-split P f x [] ls z t = (x, refl, t)
Goes-split P f x (k ∷ ks) ls z (e, p, t) =
    let (y, a, b) = Goes-split P f (f k) ks ls z t in (y, (e, p, a), b)

pub Goes-weaken :
    (P Q : ℕ → Type 0)
    → ((k : ℕ) → P k → Q k)
    → (f : ℕ → ℕ) (x : ℕ) (ks : List ℕ) (y : ℕ) → Goes P f x ks y
    → Goes Q f x ks y
Goes-weaken P Q w f x [] y t = t
Goes-weaken P Q w f x (k ∷ ks) y (e, p, t) = (e, w k p, Goes-weaken P Q w f (f k) ks y t)

pub Goes-same :
    (P : ℕ → Type 0) (f g : ℕ → ℕ)
    → ((k : ℕ) → P k → g k ≡ f k)
    → (x : ℕ) (ks : List ℕ) (y : ℕ) → Goes P f x ks y
    → Goes P g x ks y
Goes-same P f g same x [] y t = t
Goes-same P f g same x (k ∷ ks) y (e, p, t) =
    (e, p, subst (λ i. Goes P g i ks y) (sym (same k p)) (Goes-same P f g same (f k) ks y t))

-- Against the links, the same nodes come in the other order.
pub Goes-backwards :
    (P : ℕ → Type 0) (f g : ℕ → ℕ)
    → ((k : ℕ) → P k → g (f k) ≡ k)
    → (a : ℕ) (ks : List ℕ) (b : ℕ) → g (f a) ≡ a
    → Goes P f (f a) ks b
    → Goes P g (g b) (backwards ks) a
Goes-backwards P f g inv a [] b i e = ap g (sym e) ∙ i
Goes-backwards P f g inv a (k ∷ ks) b i (e, p, t) =
    Goes-append P g (g b) (backwards ks) (k ∷ []) k a (Goes-backwards P f g inv k ks b (inv k p) t)
      (refl, p, ap g (sym e) ∙ i)

pub length-backwards {ℓ} : {A : Type ℓ} (xs : List A) → length (backwards xs) ≡ length xs
length-backwards [] = refl
length-backwards (x ∷ xs) =
    length-append (backwards xs) (x ∷ []) ∙ omega (arith, length-backwards xs)

increment-decrement : (z : ℤ) → increment (decrement z) ≡ z
unfolding increment decrement
increment-decrement (pos zero) = refl
increment-decrement (pos (suc n)) = refl
increment-decrement (negsuc n) = refl

pub put_own : (f : ℕ → ℕ) (k j : ℕ) → put f k (f j) j ≡ f j
unfolding put
put_own f k j = ground arith

put_back {ℓ} :
    {A : Type ℓ} (f : ℕ → A) (k : ℕ) (a b : A) → f k ≡ b → (x : ℕ) → put (put f k a) k b x ≡ f x
put_back f k a b e x = put_again f k a b x ∙ sym (put_same f k b e x)

put_self : (f : ℕ → ℕ) (k j : ℕ) → f k ≡ j → put f k j j ≡ f j
unfolding put
put_self f k j e = elim (Bool-cases (j == k)) [
  | inl g ↦ rw g (sym e ∙ ap f (sym ((==_iff j k).0 g)))
  | inr g ↦ rw g refl
]

module _ (j : ℕ) (h : Nodes) (e : h.up (h.down j) ≡ j) (f : h.down (h.up j) ≡ j) where
  pub relink-unlink : relink j (unlink j h) ≡ h
  unfolding relink unlink
  relink-unlink i = record h { up = λ x. ups x i; down = λ x. downs x i; size = λ x. sizes x i }
    where
      ups : (x : ℕ) → (relink j (unlink j h)).up x ≡ h.up x
      ups x = rw (put_own h.down (put h.up (h.down j) (h.up j) j) j) (put_back h.up _ _ j e x)

      downs : (x : ℕ) → (relink j (unlink j h)).down x ≡ h.down x
      downs x =
          rw
            (
              put_own h.up (h.down j) j,
              put_own h.down (h.up j) j,
              put_again h.up (h.down j) (h.up j) j j,
              put_self h.up (h.down j) j e,
            )
            (put_back h.down _ _ j f x)

      sizes : (x : ℕ) → (relink j (unlink j h)).size x ≡ h.size x
      sizes x =
          rw (put_at h.size (h.col j) (decrement (h.size (h.col j))), increment-decrement)
            (put_back h.size (h.col j) _ _ refl x)

module _ (c : ℕ) (h : Nodes) (e : h.left (h.right c) ≡ c) (f : h.right (h.left c) ≡ c) where
  pub relink_header-unlink_header : relink_header c (unlink_header c h) ≡ h
  unfolding relink_header unlink_header
  relink_header-unlink_header i = record h { left = λ x. lefts x i; right = λ x. rights x i }
    where
      lefts : (x : ℕ) → (relink_header c (unlink_header c h)).left x ≡ h.left x
      lefts x =
          rw (put_own h.right (put h.left (h.right c) (h.left c) c) c) (put_back h.left _ _ c e x)

      rights : (x : ℕ) → (relink_header c (unlink_header c h)).right x ≡ h.right x
      rights x =
          rw
            (
              put_own h.left (h.right c) c,
              put_own h.right (h.left c) c,
              put_again h.left (h.right c) (h.left c) c c,
              put_self h.left (h.right c) c e,
            )
            (put_back h.right _ _ c f x)

-- What the loop of `around` makes of the nodes `ks` one after the other, up to the variable `y`.
abbrev pub Trail :
    (Nodes → ℕ → ℕ) → (ℕ → Nodes → Run Nodes) → ℕ → ℕ → List ℕ → ℕ → Nodes → Nodes → Type 0
Trail next body stop x [] y h g = (x ≡ y) × (h ≡ g)
Trail next body stop x (k ∷ ks) y h g =
    (x ≡ k)
    × (k ≢ stop)
    × (m : Nodes) × (body k h ≡ done m)
    × Trail next body stop (next m k) ks y m g

module _ (next : Nodes → ℕ → ℕ) (body : ℕ → Nodes → Run Nodes) (stop : ℕ) where
  pub Trail-append :
      (x : ℕ) (ks ls : List ℕ) (y z : ℕ) (h m g : Nodes)
      → Trail next body stop x ks y h m
      → Trail next body stop y ls z m g
      → Trail next body stop x (ks ++ ls) z h g
  Trail-append x [] ls y z h m g (e, f) t =
      subst (λ k. Trail next body stop k ls z h g) (sym e)
        (subst (λ k. Trail next body stop y ls z k g) (sym f) t)
  Trail-append x (k ∷ ks) ls y z h m g (e, n, h', f, s) t =
      (e, n, h', f, Trail-append (next h' k) ks ls y z h' m g s t)

  pub around-Trail :
      (n : ℕ) (x : ℕ) (ks : List ℕ) (h g : Nodes)
      → length ks < n
      → Trail next body stop x ks stop h g
      → around n next body stop x h ≡ done g
  unfolding around ◌>>=◌
  around-Trail zero x ks h g l t = absurd (omega (arith, l))
  around-Trail (suc n) x [] h g l (e, f) = simp (e, ==_refl stop, around) (ap done f)
  around-Trail (suc n) x (k ∷ ks) h g l (e, ne, m, f, t) = elim (Bool-cases (k == stop)) [
    | inl b ↦ absurd (ne ((==_iff k stop).0 b))
    | inr b ↦ simp (e, b, f, around) (around-Trail n (next m k) ks m g (omega arith) t)
  ]
