-- ===== src/ThreadPool/Hands.antt =====
-- base/thread_pool.cc: how often a task is in a list of tasks.
use ccnet.Prelude.{
  ℕ, suc, ◌+◌, ◌<◌, ◌≡◌, List, [], ◌∷◌, ◌++◌, arith, ◌==◌, if◌then◌else◌, Bool-cases, inl, inr,
  length, ==_iff,
}
use ccnet.ThreadPool.{remove_first}

unfoldable pub occurrences : ℕ → List ℕ → ℕ
occurrences x [] = 0
occurrences x (y ∷ ys) = let rest = occurrences x ys in if y == x then suc rest else rest

pub occurrences-append :
    (x : ℕ) (ys zs : List ℕ) → occurrences x (ys ++ zs) ≡ occurrences x ys + occurrences x zs
unfolding occurrences
occurrences-append x [] zs = omega arith
occurrences-append x (y ∷ ys) zs = ground (arith, occurrences-append x ys zs)

-- A task that is taken out of the list leaves the others.
pub occurrences-remove_first :
    (x t : ℕ) (ys : List ℕ)
    → 0 < occurrences t ys
    → occurrences x (remove_first t ys) + occurrences x (t ∷ []) ≡ occurrences x ys
unfolding occurrences remove_first
occurrences-remove_first x t [] h = absurd (omega arith)
occurrences-remove_first x t (y ∷ ys) h = elim (Bool-cases (y == t)) [
  | inl e ↦ simp e (ground (arith, (==_iff y t).0 e))
  | inr e ↦ simp e (ground (arith, occurrences-remove_first x t ys (simp e at h)))
]

pub length-remove_first :
    (t : ℕ) (ys : List ℕ) → 0 < occurrences t ys → suc (length (remove_first t ys)) ≡ length ys
unfolding occurrences remove_first
length-remove_first t [] h = absurd (omega arith)
length-remove_first t (y ∷ ys) h = elim (Bool-cases (y == t)) [
  | inl e ↦ simp e (omega arith)
  | inr e ↦ simp e (omega (arith, length-remove_first t ys (simp e at h)))
]
