-- ===== src/SortedVec/Canonical.antt =====
-- A vector in strictly increasing order is the one way to store its members: it is determined by them.
use substrate_recipes.Prelude.{
  ℕ, ◌<◌, ◌≡◌, refl, ap₂, List, [], ◌∷◌, ltb, ◌==◌, All, arith, Bool-cases, inl, inr,
}
use substrate_recipes.SortedVec.{contains, btree_insert, collect, IsSorted}
use substrate_recipes.SortedVec.Update.{All-not_contains, All-lt}

abbrev pub SameMembers : List ℕ → List ℕ → Type 0
SameMembers xs ys = (j : ℕ) → contains j xs ≡ contains j ys

heads :
    (x y : ℕ) (xs ys : List ℕ)
    → IsSorted (x ∷ xs)
    → IsSorted (y ∷ ys)
    → SameMembers (x ∷ xs) (y ∷ ys)
    → x ≡ y
heads x y xs ys s t h =
    ground (arith, h x, h y, All-not_contains x y ys t.0, All-not_contains y x xs s.0)

tails :
    (x y : ℕ) (xs ys : List ℕ)
    → IsSorted (x ∷ xs)
    → IsSorted (y ∷ ys)
    → x ≡ y
    → SameMembers (x ∷ xs) (y ∷ ys)
    → SameMembers xs ys
tails x y xs ys s t same h j =
    ground (arith, h j, All-not_contains j y ys t.0, All-not_contains j x xs s.0)

pub IsSorted-ext : (xs ys : List ℕ) → IsSorted xs → IsSorted ys → SameMembers xs ys → xs ≡ ys
IsSorted-ext [] [] s t h = refl
IsSorted-ext [] (y ∷ ys) s t h = ground (arith, h y)
IsSorted-ext (x ∷ xs) [] s t h = ground (arith, h x)
IsSorted-ext (x ∷ xs) (y ∷ ys) s t h =
    let same = heads x y xs ys s t h in
    ap₂ ◌∷◌ same (IsSorted-ext xs ys s.1 t.1 (tails x y xs ys s t same h))

All-btree_insert :
    (x key : ℕ) (xs : List ℕ)
    → x < key
    → All (λ y. x < y) xs
    → All (λ y. x < y) (btree_insert key xs)
unfolding btree_insert
All-btree_insert x key [] h a = (h, tt)
All-btree_insert x key (y ∷ ys) h a = elim (Bool-cases (ltb key y)) [
  | inl e ↦ rw e (h, a)
  | inr e ↦ elim (Bool-cases (key == y)) [
    | inl e' ↦ rw (e, e') a
    | inr e' ↦ rw (e, e') (a.0, All-btree_insert x key ys h a.1)
  ]
]

btree_insert-IsSorted : (key : ℕ) (xs : List ℕ) → IsSorted xs → IsSorted (btree_insert key xs)
unfolding btree_insert
btree_insert-IsSorted key [] s = (tt, tt)
btree_insert-IsSorted key (y ∷ ys) s = elim (Bool-cases (ltb key y)) [
  | inl e ↦ rw e ((ground arith, All-lt key y ys (ground arith) s.0), s)
  | inr e ↦ elim (Bool-cases (key == y)) [
    | inl e' ↦ rw (e, e') s
    | inr e' ↦
        rw (e, e') (All-btree_insert y key ys (ground arith) s.0, btree_insert-IsSorted key ys s.1)
  ]
]

pub collect-IsSorted : (xs : List ℕ) → IsSorted (collect xs)
unfolding collect
collect-IsSorted [] = tt
collect-IsSorted (x ∷ xs) = btree_insert-IsSorted x (collect xs) (collect-IsSorted xs)
