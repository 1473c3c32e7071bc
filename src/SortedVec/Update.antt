-- ===== src/SortedVec/Update.antt =====
-- Insertion and removal at a key's rank keep a vector sorted and change its members by that key;
-- an ordered set has the members of the list that it was collected from.
use substrate_recipes.Prelude.{
  ℕ, zero, suc, ◌+◌, ◌<◌, ◌≤◌, ◌≡◌, refl, List, [], ◌∷◌, true, false, not, ◌&&◌, ◌||◌, ltb, ◌==◌,
  length, All, arith, Bool-cases, inl, inr,
}
use substrate_recipes.SortedVec.{insert_at, remove_at, contains, btree_insert, collect, IsSorted}
use substrate_recipes.SortedVec.Rank.{rank}

All-insert_at :
    (x key i : ℕ) (xs : List ℕ)
    → x < key
    → All (λ y. x < y) xs
    → All (λ y. x < y) (insert_at i key xs)
unfolding insert_at
All-insert_at x key zero xs h a = (h, a)
All-insert_at x key (suc i) [] h a = (h, tt)
All-insert_at x key (suc i) (y ∷ ys) h a = (a.0, All-insert_at x key i ys h a.1)

All-remove_at : (x i : ℕ) (xs : List ℕ) → All (λ y. x < y) xs → All (λ y. x < y) (remove_at i xs)
unfolding remove_at
All-remove_at x i [] a = tt
All-remove_at x zero (y ∷ ys) a = a.1
All-remove_at x (suc i) (y ∷ ys) a = (a.0, All-remove_at x i ys a.1)

pub All-lt : (x y : ℕ) (xs : List ℕ) → x < y → All (λ z. y < z) xs → All (λ z. x < z) xs
All-lt x y [] h a = tt
All-lt x y (z ∷ zs) h a = (omega (arith, a.0), All-lt x y zs h a.1)

pub insert_at-IsSorted :
    (key : ℕ) (xs : List ℕ)
    → IsSorted xs
    → contains key xs ≡ false
    → IsSorted (insert_at (rank key xs) key xs)
unfolding insert_at
insert_at-IsSorted key [] s h = (tt, tt)
insert_at-IsSorted key (x ∷ xs) s h = elim (Bool-cases (ltb x key)) [
  | inl below ↦ rw below (
    All-insert_at x key (rank key xs) xs (ground arith) s.0,
    insert_at-IsSorted key xs s.1 (ground arith),
  )
  | inr over ↦ rw over ((ground arith, All-lt key x xs (ground arith) s.0), s)
]

pub contains-insert_at :
    (j key i : ℕ) (xs : List ℕ) → contains j (insert_at i key xs) ≡ (key == j || contains j xs)
unfolding insert_at
contains-insert_at j key zero xs = refl
contains-insert_at j key (suc i) [] = refl
contains-insert_at j key (suc i) (y ∷ ys) = ground (arith, contains-insert_at j key i ys)

pub length-insert_at : (key i : ℕ) (xs : List ℕ) → length (insert_at i key xs) ≡ length xs + 1
unfolding insert_at
length-insert_at key zero xs = omega arith
length-insert_at key (suc i) [] = omega arith
length-insert_at key (suc i) (y ∷ ys) = omega (arith, length-insert_at key i ys)

pub remove_at-IsSorted : (i : ℕ) (xs : List ℕ) → IsSorted xs → IsSorted (remove_at i xs)
unfolding remove_at
remove_at-IsSorted i [] s = tt
remove_at-IsSorted zero (y ∷ ys) s = s.1
remove_at-IsSorted (suc i) (y ∷ ys) s = (All-remove_at y i ys s.0, remove_at-IsSorted i ys s.1)

pub All-not_contains :
    (key x : ℕ) (xs : List ℕ) → All (λ y. x < y) xs → key ≤ x → contains key xs ≡ false
All-not_contains key x [] a h = refl
All-not_contains key x (y ∷ ys) a h = ground (arith, All-not_contains key x ys a.1 h)

pub contains-remove_at :
    (j key : ℕ) (xs : List ℕ)
    → IsSorted xs
    → contains key xs ≡ true
    → contains j (remove_at (rank key xs) xs) ≡ (not (key == j) && contains j xs)
unfolding remove_at
contains-remove_at j key [] s h = cc
contains-remove_at j key (x ∷ xs) s h = elim (Bool-cases (ltb x key)) [
  | inl below ↦ rw below (ground (arith, contains-remove_at j key xs s.1))
  | inr over ↦ rw over (ground (arith, All-not_contains key x xs s.0, All-not_contains j x xs s.0))
]

pub length-remove_at :
    (key : ℕ) (xs : List ℕ)
    → contains key xs ≡ true
    → IsSorted xs
    → length (remove_at (rank key xs) xs) + 1 ≡ length xs
unfolding remove_at
length-remove_at key [] h s = cc
length-remove_at key (x ∷ xs) h s = elim (Bool-cases (ltb x key)) [
  | inl below ↦ rw below (ground (arith, length-remove_at key xs))
  | inr over ↦ rw over (omega arith)
]

contains-btree_insert :
    (j key : ℕ) (xs : List ℕ) → contains j (btree_insert key xs) ≡ (key == j || contains j xs)
unfolding btree_insert
contains-btree_insert j key [] = refl
contains-btree_insert j key (x ∷ xs) = ground (arith, contains-btree_insert j key xs)

pub contains-collect : (j : ℕ) (xs : List ℕ) → contains j (collect xs) ≡ contains j xs
unfolding collect
contains-collect j [] = refl
contains-collect j (x ∷ xs) =
    ground (arith, contains-btree_insert j x (collect xs), contains-collect j xs)
