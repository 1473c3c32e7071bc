-- ===== src/SortedVec/Tests.antt =====
-- A binary search that finds its key and one that does not.
use substrate_recipes.Prelude.{ℕ, ◌≡◌, refl, List, [], ◌∷◌, arith}
use substrate_recipes.SortedVec.{at, missing, binary_search, IsSorted}

abbrev keys : List ℕ
keys = 2 ∷ 3 ∷ 5 ∷ 7 ∷ 11 ∷ []

finds_seven : binary_search keys 7 ≡ at 3
unfolding binary_search
finds_seven = refl

misses_six : binary_search keys 6 ≡ missing 3
unfolding binary_search
misses_six = refl

keys-IsSorted : IsSorted keys
keys-IsSorted = ground arith
