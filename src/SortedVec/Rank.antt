-- ===== src/SortedVec/Rank.antt =====
-- The rank of a key in a sorted vector: how many of its elements are below the key.
use substrate_recipes.Prelude.{
  ℕ, zero, suc, ◌<◌, ◌≤◌, ◌≡◌, inl, inr, refl, List, [], ◌∷◌, true, false, ltb, if◌then◌else◌,
  length, get_or, All, arith, Bool-cases,
}
use substrate_recipes.SortedVec.{contains, IsSorted}

-- The number of elements before the first one that is not below the key.
abbrev pub rank : ℕ → List ℕ → ℕ
rank key [] = 0
rank key (x ∷ xs) = if ltb x key then suc (rank key xs) else 0

pub rank-le-length : (key : ℕ) (xs : List ℕ) → rank key xs ≤ length xs
rank-le-length key [] = omega arith
rank-le-length key (x ∷ xs) = ground (arith, rank-le-length key xs)

pub rank_below : (key : ℕ) (xs : List ℕ) (i : ℕ) → i < rank key xs → get_or xs i 0 < key
rank_below key [] i h = absurd (omega arith)
rank_below key (x ∷ xs) zero h = ground arith
rank_below key (x ∷ xs) (suc i) h = rank_below key xs i (ground arith)

pub All-get_or :
    (x : ℕ) (xs : List ℕ) (i : ℕ) → All (λ y. x < y) xs → i < length xs → x < get_or xs i 0
All-get_or x [] i h l = absurd (omega arith)
All-get_or x (y ∷ ys) zero h l = h.0
All-get_or x (y ∷ ys) (suc i) h l = All-get_or x ys i h.1 (omega arith)

pub rank_above :
    (key : ℕ) (xs : List ℕ) (i : ℕ)
    → IsSorted xs
    → rank key xs ≤ i
    → i < length xs
    → key ≤ get_or xs i 0
rank_above key [] i s h l = absurd (omega arith)
rank_above key (x ∷ xs) zero s h l = ground arith
rank_above key (x ∷ xs) (suc i) s h l = elim (Bool-cases (ltb x key)) [
  | inl below ↦ rank_above key xs i s.1 (ground arith) (omega arith)
  | inr above ↦ ground (arith, All-get_or x xs i s.0 (omega arith))
]

pub get_or_increasing :
    (xs : List ℕ) (i j : ℕ) → IsSorted xs → i < j → j < length xs → get_or xs i 0 < get_or xs j 0
get_or_increasing [] i j s h l = absurd (omega arith)
get_or_increasing (x ∷ xs) i zero s h l = absurd (omega arith)
get_or_increasing (x ∷ xs) zero (suc j) s h l = All-get_or x xs j s.0 (omega arith)
get_or_increasing (x ∷ xs) (suc i) (suc j) s h l =
    get_or_increasing xs i j s.1 (omega arith) (omega arith)

pub contains-rank :
    (key : ℕ) (xs : List ℕ)
    → IsSorted xs
    → rank key xs < length xs
    → get_or xs (rank key xs) 0 ≡ key
    → contains key xs ≡ true
contains-rank key [] s l e = absurd (omega arith)
contains-rank key (x ∷ xs) s l e = ground (arith, contains-rank key xs s.1)

pub All-contains :
    (x key : ℕ) (xs : List ℕ) → All (λ y. x < y) xs → key ≤ x → contains key xs ≡ false
All-contains x key [] h l = refl
All-contains x key (y ∷ ys) h l = ground (arith, All-contains x key ys h.1 l)

pub not_contains-rank :
    (key : ℕ) (xs : List ℕ)
    → IsSorted xs
    → (rank key xs < length xs → key < get_or xs (rank key xs) 0)
    → contains key xs ≡ false
not_contains-rank key [] s above = refl
not_contains-rank key (x ∷ xs) s above = elim (Bool-cases (ltb x key)) [
  | inl below ↦ ground (arith, not_contains-rank key xs s.1 (λ h. ground (arith, above)))
  | inr over ↦ ground (arith, All-contains x key xs s.0)
]
