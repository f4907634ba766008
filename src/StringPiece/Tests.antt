-- ===== src/StringPiece/Tests.antt =====
-- Comparisons of short texts, and the theorems at them.
use ccnet.Prelude.{ℕ, ◌≡◌, refl, not, List, [], ◌∷◌}
use Prim.Native.Nat.{lt, eq, gt}
use ccnet.StringPiece.{memcmp, is_lt, is_gt, less, less_equal, greater, greater_equal, compare_to}
use ccnet.StringPiece.Order.{dictionary, comparisons-dictionary}

abbrev ab : List ℕ
ab = 97 ∷ 98 ∷ []

abbrev abc : List ℕ
abc = 97 ∷ 98 ∷ 99 ∷ []

abbrev b : List ℕ
b = 98 ∷ []

orders : (compare_to ab abc ≡ lt) × (compare_to b abc ≡ gt) × (compare_to ab ab ≡ eq)
unfolding compare_to memcmp
orders = (refl, refl, refl)

comparisons-dictionary_example :
    (compare_to ab abc ≡ dictionary ab abc)
    × (less ab abc ≡ is_lt (dictionary ab abc))
    × (less_equal ab abc ≡ not (is_gt (dictionary ab abc)))
    × (greater ab abc ≡ is_gt (dictionary ab abc))
    × (greater_equal ab abc ≡ not (is_lt (dictionary ab abc)))
comparisons-dictionary_example = comparisons-dictionary ab abc
