-- ===== src/SortedVec.antt =====
-- What the pallets use of `Vec` and `BTreeSet` over account identifiers: binary search, insertion
-- and removal at an index, `contains`, and collecting into an ordered set.
pub mod Rank
pub mod Search
pub mod Update
pub mod Canonical
mod Tests
use substrate_recipes.Prelude.{
  ℕ, zero, suc, ◌+◌, ◌-◌, ◌/◌, ◌<◌, List, [], ◌∷◌, Bool, true, false, ◌||◌, ltb, ◌==◌,
  if◌then◌else◌, length, get_or, All,
}

-- `Result<usize, usize>`: where the key is, or where it would go.
pub data Found : Type 0 where
  at : ℕ → Found
  missing : ℕ → Found

-- The loop of `slice::binary_search`, over `base` and `size`; each round at least halves `size`, so
-- fuel of the length is enough.
pub narrow : ℕ → ℕ → List ℕ → ℕ → ℕ → ℕ
narrow zero key xs base size = base
narrow (suc fuel) key xs base size =
    let half = size / 2 in
    let mid = base + half in
    let rest = narrow fuel key xs (if ltb key (get_or xs mid 0) then base else mid) (size - half) in
    if ltb 1 size then rest else base

-- The comparison after the loop.
abbrev settle : ℕ → List ℕ → ℕ → Found
settle key xs base =
    if get_or xs base 0 == key
    then at base
    else if ltb (get_or xs base 0) key
    then missing (base + 1)
    else missing base

unfoldable pub binary_search : List ℕ → ℕ → Found
unfolding narrow
binary_search [] key = missing 0
binary_search (x ∷ xs) key =
    let ys = x ∷ xs in settle key ys (narrow (length ys) key ys 0 (length ys))

-- `Vec::insert` and `Vec::remove`, at an index in range.
unfoldable pub insert_at : ℕ → ℕ → List ℕ → List ℕ
insert_at zero x ys = x ∷ ys
insert_at (suc i) x [] = x ∷ []
insert_at (suc i) x (y ∷ ys) = y ∷ insert_at i x ys

pub remove_at : ℕ → List ℕ → List ℕ
remove_at i [] = []
remove_at zero (y ∷ ys) = ys
remove_at (suc i) (y ∷ ys) = y ∷ remove_at i ys

abbrev pub contains : ℕ → List ℕ → Bool
contains k [] = false
contains k (x ∷ xs) = x == k || contains k xs

-- `BTreeSet::insert`, on the elements in order.
pub btree_insert : ℕ → List ℕ → List ℕ
btree_insert k [] = k ∷ []
btree_insert k (x ∷ xs) =
    if ltb k x then k ∷ (x ∷ xs) else if k == x then x ∷ xs else x ∷ btree_insert k xs

-- `collect::<BTreeSet<_>>()`
pub collect : List ℕ → List ℕ
unfolding btree_insert
collect [] = []
collect (x ∷ xs) = btree_insert x (collect xs)

-- In strictly increasing order.
abbrev pub IsSorted : List ℕ → Type 0
IsSorted [] = Unit
IsSorted (x ∷ xs) = All (λ y. x < y) xs × IsSorted xs
