-- ===== src/SortedVec/Search.antt =====
-- Binary search in a sorted vector finds the key, or the place where it goes.
use substrate_recipes.Prelude.{
  sym, ℕ, zero, suc, ◌+◌, ◌-◌, ◌/◌, ◌<◌, ◌≤◌, ◌≡◌, ◌≢◌, ◌⊎◌, inl, inr, refl, List, [], ◌∷◌, Bool,
  true, false, subst, ltb, if◌then◌else◌, length, get_or, arith, Bool-cases, dec_lt, ℕ_discrete,
}
use substrate_recipes.SortedVec.{at, missing, narrow, settle, binary_search, contains, IsSorted}
use substrate_recipes.SortedVec.Rank.{
  rank, rank-le-length, rank_below, rank_above, get_or_increasing, contains-rank, not_contains-rank,
}

module _ (key : ℕ) (xs : List ℕ) where
  -- The invariant of the loop: below `base` and from `base + size` on there is nothing to look for.
  record Narrowed (base size : ℕ) : Type 0 where
    some_left : 0 < size
    in_range : base + size ≤ length xs
    left : (base ≡ 0) ⊎ (get_or xs base 0 ≤ key)
    right : (base + size ≡ length xs) ⊎ (key < get_or xs (base + size) 0)

  -- Past an element above the key there are only elements above it.
  above_right :
      (i j : ℕ)
      → IsSorted xs
      → i ≤ j
      → j ≤ length xs
      → key < get_or xs i 0
      → (j ≡ length xs) ⊎ (key < get_or xs j 0)
  above_right i j s h l a = elim (ℕ_discrete j (length xs)) [
    | yes e ↦ inl e
    | no ne ↦ elim (ℕ_discrete i j) [
      | yes e ↦ inr (subst (λ k. key < get_or xs k 0) e a)
      | no ne' ↦ inr (omega (arith, get_or_increasing xs i j s (omega arith) (omega arith), a))
    ]
  ]

  narrow_lem :
      (fuel base size : ℕ)
      → IsSorted xs
      → size ≤ suc fuel
      → Narrowed base size
      → Narrowed (narrow fuel key xs base size) 1
  unfolding narrow
  narrow_lem zero base size s f n =
      let e : size ≡ 1 = omega (arith, n.some_left) in subst (λ k. Narrowed base k) e n
  narrow_lem (suc fuel) base size s f n = elim (Bool-cases (ltb 1 size)) [
    | inr small ↦
        rw small
          (let e : size ≡ 1 = ground (arith, n.some_left) in subst (λ k. Narrowed base k) e n)
    | inl large ↦ rw large (elim (Bool-cases (ltb key (get_or xs (base + size / 2) 0))) [
      | inl above ↦ rw above (
          narrow_lem fuel base (size - size / 2) s (ground arith) (record {
            some_left = ground arith;
            in_range = omega (arith, n.in_range);
            left = n.left;
            right =
                above_right (base + size / 2) (base + (size - size / 2)) s (omega arith)
                  (omega (arith, n.in_range)) (ground arith);
          }))
      | inr below ↦ rw below (
          narrow_lem fuel (base + size / 2) (size - size / 2) s (ground arith) (record {
            some_left = ground arith;
            in_range = omega (arith, n.in_range);
            left = inr (ground arith);
            right =
                let e : base + size ≡ base + size / 2 + (size - size / 2) = omega arith in
                subst (λ k. (k ≡ length xs) ⊎ (key < get_or xs k 0)) e n.right;
          }))
    ])
  ]

  rank_unique :
      (i : ℕ)
      → IsSorted xs
      → i ≤ length xs
      → ((i ≡ 0) ⊎ (get_or xs (i - 1) 0 < key))
      → ((i ≡ length xs) ⊎ (key ≤ get_or xs i 0))
      → rank key xs ≡ i
  rank_unique i s l below above = elim (dec_lt i (rank key xs)) [
    | yes p ↦ absurd (omega (arith, rank_below key xs i p, rank-le-length key xs))
    | no np ↦ elim (dec_lt (rank key xs) i) [
      | yes q ↦ absurd (omega (arith, rank_above key xs (i - 1) s (omega arith) (omega arith)))
      | no nq ↦ omega arith
    ]
  ]

  -- Where the loop ends at an element, the rank of the key follows from the comparison with it.
  rank_of_Narrowed :
      (base : ℕ)
      → IsSorted xs
      → Narrowed base 1
      → rank key xs ≡ (if ltb (get_or xs base 0) key then base + 1 else base)
  rank_of_Narrowed base s n = elim (Bool-cases (ltb (get_or xs base 0) key)) [
    | inl below ↦ rw below (
        rank_unique (base + 1) s n.in_range
          (inr (
            let e : base ≡ base + 1 - 1 = omega arith in
            subst (λ k. get_or xs k 0 < key) e (ground arith)))
          (above n.right))
    | inr over ↦ rw over (
        rank_unique base s (omega (arith, n.in_range)) (before n.left (ground arith))
          (inr (ground arith)))
  ]
    where
      above :
          (base + 1 ≡ length xs) ⊎ (key < get_or xs (base + 1) 0)
          → (base + 1 ≡ length xs) ⊎ (key ≤ get_or xs (base + 1) 0)
      above (inl e) = inl e
      above (inr h) = inr (omega arith)

      before :
          (base ≡ 0) ⊎ (get_or xs base 0 ≤ key)
          → key ≤ get_or xs base 0
          → (base ≡ 0) ⊎ (get_or xs (base - 1) 0 < key)
      before (inl e) over = inl e
      before (inr h) over = elim (ℕ_discrete base 0) [
        | yes e ↦ inl e
        | no ne ↦ inr (
            omega (
              arith,
              get_or_increasing xs (base - 1) base s (omega arith) (omega (arith, n.in_range)),
            ))
      ]

  -- The comparison after the loop tells whether the key is there, and where it goes.
  settle_lem :
      (base : ℕ)
      → IsSorted xs
      → Narrowed base 1
      → settle key xs base ≡ (if contains key xs then at (rank key xs) else missing (rank key xs))
  settle_lem base s n = elim (ℕ_discrete (get_or xs base 0) key) [
    | yes e ↦
        let r : rank key xs ≡ base = ground (arith, rank_of_Narrowed base s n) in
        let c : contains key xs ≡ true =
          contains-rank key xs s (omega (arith, r, n.in_range))
            (subst (λ k. get_or xs k 0 ≡ key) (sym r) e) in
        rw (c, r) (ground arith)
    | no ne ↦
        let r = rank_of_Narrowed base s n in
        let c : contains key xs ≡ false =
          not_contains-rank key xs s (λ h. after (ltb (get_or xs base 0) key) ne refl r h) in
        rw (c, r) (ground arith)
  ]
    where
      after :
          (b : Bool)
          → get_or xs base 0 ≢ key
          → ltb (get_or xs base 0) key ≡ b
          → rank key xs ≡ (if b then base + 1 else base)
          → rank key xs < length xs
          → key < get_or xs (rank key xs) 0
      after true ne e r h = subst (λ k. key < get_or xs k 0) (sym r) (omega (arith, n.right, r, h))
      after false ne e r h = subst (λ k. key < get_or xs k 0) (sym r) (ground arith)

-- In a sorted vector the search finds the key exactly where it is a member, and the index that it
-- returns is the key's rank either way.
pub binary_search_lem :
    (key : ℕ) (xs : List ℕ)
    → IsSorted xs
    → binary_search xs key ≡ (if contains key xs then at (rank key xs) else missing (rank key xs))
unfolding binary_search
binary_search_lem key [] s = refl
binary_search_lem key (x ∷ xs) s =
    let ys = x ∷ xs in
    settle_lem key ys (narrow (length ys) key ys 0 (length ys)) s (
      narrow_lem key ys (length ys) 0 (length ys) s (omega arith) (record {
        some_left = omega arith;
        in_range = omega arith;
        left = inl refl;
        right = inl (omega arith);
      }))
