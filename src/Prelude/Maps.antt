-- ===== src/Prelude/Maps.antt =====
-- A map from numbers as a function, and the change of one entry.
use ccnet.Prelude.{
  ℕ, ◌≡◌, refl, ap, ◌∙◌, ◌≢◌, inl, inr, ◌==◌, if◌then◌else◌, ==_iff, ==_refl, Bool-cases,
}

unfoldable pub put {ℓ} : {A : Type ℓ} → (ℕ → A) → ℕ → A → ℕ → A
put f k v x = if x == k then v else f x

pub put_at {ℓ} : {A : Type ℓ} (f : ℕ → A) (k : ℕ) (v : A) → put f k v k ≡ v
unfolding put
put_at f k v = rw (==_refl k) refl

pub put_other {ℓ} : {A : Type ℓ} (f : ℕ → A) (k : ℕ) (v : A) (x : ℕ) → x ≢ k → put f k v x ≡ f x
unfolding put
put_other f k v x ne = elim (Bool-cases (x == k)) [
  | inl e ↦ absurd (ne ((==_iff x k).0 e))
  | inr e ↦ rw e refl
]

pub put_again {ℓ} :
    {A : Type ℓ} (f : ℕ → A) (k : ℕ) (a b : A) (x : ℕ) → put (put f k a) k b x ≡ put f k b x
unfolding put
put_again f k a b x = elim (Bool-cases (x == k)) [ inl e ↦ rw e refl | inr e ↦ rw e refl ]

pub put_same {ℓ} : {A : Type ℓ} (f : ℕ → A) (k : ℕ) (a : A) → f k ≡ a → (x : ℕ) → f x ≡ put f k a x
unfolding put
put_same f k a h x = elim (Bool-cases (x == k)) [
  | inl e ↦ rw e (ap f ((==_iff x k).0 e) ∙ h)
  | inr e ↦ rw e refl
]
