-- ===== src/PowMiner/Finds.antt =====
-- The search ends: with one piece of work all along, a nonce that meets the difficulty is found.
use substrate_recipes.Prelude.{
  ℕ, zero, suc, ◌+◌, ◌-◌, ◌*◌, ◌≤◌, ◌<◌, ◌≡◌, refl, ap, subst, ◌∙◌, true, false, some, [], ◌∷◌,
  ◌++◌, arith, Bool-cases, inl, inr, ◌==◌, ltb, ltb→lt, if◌then◌else◌, ◌⊎◌,
}
use substrate_recipes.Sha3Pow.{hash_meets_difficulty, Seal, compute, Crypto, u256}
use substrate_recipes.PowMiner.{Metadata, State, u256_max, mine}

suc-+ : (d k : ℕ) → suc (d + k) ≡ d + suc k
suc-+ d k = omega arith

module _ (crypto : Crypto) (metadata : Metadata) where
  -- The seal of a nonce, and whether it meets the difficulty.
  unfoldable pub seal_of : ℕ → Seal
  seal_of nonce =
      compute crypto
        (record { difficulty = metadata.difficulty; pre_hash = metadata.pre_hash; nonce = nonce })

  unfoldable pub Meets : ℕ → Type 0
  unfolding seal_of
  Meets nonce = (seal_of nonce).work * metadata.difficulty < u256

  unfoldable pub repeat_mine : ℕ → State → State
  repeat_mine zero s = s
  repeat_mine (suc k) s = repeat_mine k (mine crypto (some metadata) s)

  pub mine_found :
      (s : State)
      → Meets s.nonce
      → mine crypto (some metadata) s ≡ record {
        nonce = 0;
        submitted = s.submitted ++ ((metadata, crypto.encode_seal (seal_of s.nonce)) ∷ []);
      }
  unfolding mine Meets seal_of compute hash_meets_difficulty
  mine_found s h = ground arith

  pub mine_missed :
      (s : State)
      → s.nonce < u256_max
      → ((seal_of s.nonce).work * metadata.difficulty < u256 → ⊥)
      → mine crypto (some metadata) s
        ≡ record s { nonce = if s.nonce + 1 == u256_max then 0 else s.nonce + 1 }
  unfolding mine seal_of compute hash_meets_difficulty
  mine_missed s small h = ground arith

  -- What a state becomes with the seal of a nonce submitted.
  unfoldable pub found_at : ℕ → State → State
  unfolding seal_of
  found_at nonce s = record {
    nonce = 0;
    submitted = s.submitted ++ ((metadata, crypto.encode_seal (seal_of nonce)) ∷ []);
  }

  -- Within `bound` rounds before the last, the state submits a seal that meets the difficulty.
  unfoldable pub FindsWithin : ℕ → State → Type 0
  FindsWithin bound s =
      (k : ℕ) × (k ≤ bound)
      × ((nonce : ℕ) × (nonce < u256_max)
          × Meets nonce
          × (repeat_mine (suc k) s ≡ found_at nonce s))

  pub ltb→Meets :
      (nonce : ℕ) → ltb ((seal_of nonce).work * metadata.difficulty) u256 ≡ true → Meets nonce
  unfolding Meets
  ltb→Meets nonce h = ltb→lt ((seal_of nonce).work * metadata.difficulty) u256 h

  found_here : (bound : ℕ) (s : State) → s.nonce < u256_max → Meets s.nonce → FindsWithin bound s
  unfolding FindsWithin repeat_mine found_at
  found_here bound s small h = (0, omega arith, (s.nonce, small, h, mine_found s h))

  advance :
      (s : State)
      → s.nonce + 1 < u256_max
      → ((seal_of s.nonce).work * metadata.difficulty < u256 → ⊥)
      → mine crypto (some metadata) s ≡ record s { nonce = s.nonce + 1 }
  advance s small h =
      let e : (s.nonce + 1 == u256_max) ≡ false = ground arith in
      mine_missed s (omega arith) h ∙ ap (λ b. record s { nonce = if b then 0 else s.nonce + 1 }) e

  found_later :
      (bound : ℕ) (s s' : State)
      → mine crypto (some metadata) s ≡ s'
      → s'.submitted ≡ s.submitted
      → FindsWithin bound s'
      → FindsWithin (suc bound) s
  unfolding FindsWithin repeat_mine found_at
  found_later bound s s' e same (k, le, (nonce, small, meets, found)) = (
    suc k,
    omega arith,
    (
      nonce,
      small,
      meets,
      ap (repeat_mine (suc k)) e
          ∙ found
          ∙ ap
              (λ log. record {
                nonce = 0;
                submitted = log ++ ((metadata, crypto.encode_seal (seal_of nonce)) ∷ []);
              })
              same,
    ),
  )

  -- A search of `d` more nonces at most, the last of which is good.
  search : (d n : ℕ) (s : State) → n < u256_max → Meets n → s.nonce + d ≡ n → FindsWithin d s
  unfolding Meets
  search zero n s small good gap = found_here zero s (omega arith) (subst Meets (omega arith) good)
  search (suc d) n s small good gap =
      let at = (seal_of s.nonce).work * metadata.difficulty in
      elim (Bool-cases (ltb at u256)) [
        | inl here ↦ found_here (suc d) s (omega arith) (ltb→lt at u256 here)
        | inr later ↦
            let s' = record s { nonce = s.nonce + 1 } in
            found_later d s s' (advance s (omega arith) (ground arith)) refl
              (search d n s' small good (omega arith))
      ]

  repeat_mine-+ : (i j : ℕ) (s : State) → repeat_mine (i + j) s ≡ repeat_mine j (repeat_mine i s)
  unfolding repeat_mine
  repeat_mine-+ zero j s = let e : 0 + j ≡ j = omega arith in ap (λ n. repeat_mine n s) e
  repeat_mine-+ (suc i) j s =
      let e : suc i + j ≡ suc (i + j) = omega arith in
      ap (λ n. repeat_mine n s) e ∙ repeat_mine-+ i j (mine crypto (some metadata) s)

  finds_weaken : (m n : ℕ) (s : State) → m ≤ n → FindsWithin m s → FindsWithin n s
  unfolding FindsWithin
  finds_weaken m n s le (k, le', found) = (k, omega arith, found)

  finds_after :
      (d n : ℕ) (s : State)
      → repeat_mine d s ≡ record s { nonce = 0 }
      → FindsWithin n (record s { nonce = 0 })
      → FindsWithin (d + n) s
  unfolding FindsWithin found_at
  finds_after d n s e (k, le, (nonce, small, meets, found)) = (
    d + k,
    omega arith,
    (
      nonce,
      small,
      meets,
      ap (λ i. repeat_mine i s) (suc-+ d k)
          ∙ repeat_mine-+ d (suc k) s
          ∙ ap (repeat_mine (suc k)) e
          ∙ found,
    ),
  )

  -- From a nonce, either something is found, or the search is back at the first nonce.
  wrap :
      (d : ℕ) (s : State)
      → s.nonce + suc d ≡ u256_max
      → FindsWithin d s ⊎ (repeat_mine (suc d) s ≡ record s { nonce = 0 })
  unfolding repeat_mine
  wrap zero s gap =
      let at = (seal_of s.nonce).work * metadata.difficulty in
      elim (Bool-cases (ltb at u256)) [
        | inl here ↦ inl (found_here zero s (omega arith) (ltb→Meets s.nonce here))
        | inr later ↦
            let e : (s.nonce + 1 == u256_max) ≡ true = ground arith in
            inr (
              mine_missed s (omega arith) (ground arith)
              ∙ ap (λ b. record s { nonce = if b then 0 else s.nonce + 1 }) e)
      ]
  wrap (suc d) s gap =
      let at = (seal_of s.nonce).work * metadata.difficulty in
      elim (Bool-cases (ltb at u256)) [
        | inl here ↦ inl (found_here (suc d) s (omega arith) (ltb→Meets s.nonce here))
        | inr later ↦
            let s' = record s { nonce = s.nonce + 1 } in
            let step = advance s (omega arith) (ground arith) in
            elim (wrap d s' (omega arith)) [
              | inl found ↦ inl (found_later d s s' step refl found)
              | inr back ↦ inr (ap (repeat_mine (suc d)) step ∙ back)
            ]
      ]

  -- With the same work in every round, if some nonce below the last one meets the difficulty, then
  -- from every nonce below the last one the loop submits the seal of such a nonce, after at most as
  -- many rounds as there are words and that nonce more, and starts again from nonce zero.
  pub rounds-FindsWithin :
      (n : ℕ) (s : State)
      → n < u256_max
      → Meets n
      → s.nonce < u256_max
      → FindsWithin (u256_max + n) s
  rounds-FindsWithin n s small good from =
      let d = u256_max - suc s.nonce in
      elim (wrap d s (omega arith)) [
        | inl found ↦ finds_weaken d (u256_max + n) s (omega arith) found
        | inr back ↦ finds_weaken (suc d + n) (u256_max + n) s (omega arith) (
            finds_after (suc d) n s back
              (search n n (record s { nonce = 0 }) small good (omega arith)))
      ]

  -- From nonce zero, the loop submits within so many rounds as the least good nonce is large, and one.
  pub start-FindsWithin :
      (n : ℕ) (s : State) → n < u256_max → Meets n → s.nonce ≡ 0 → FindsWithin n s
  start-FindsWithin n s small good first = search n n s small good (omega arith)
