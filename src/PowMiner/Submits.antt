-- ===== src/PowMiner/Submits.antt =====
-- What the loop submits, however the work changes under it.
use substrate_recipes.Prelude.{
  ℕ, ◌*◌, ◌<◌, ◌≡◌, sym, ap, subst, ◌∙◌, true, Option, none, some, List, [], ◌∷◌, ◌++◌, arith,
  Bool-cases, inl, inr, ltb, lt→ltb, All,
}
use mathlib.Core.List.{append-nil}
use substrate_recipes.Sha3Pow.{compute, Crypto, u256, minimal_algorithm}
use substrate_recipes.Sha3Pow.Verify.{IsCodec, verify-compute}
use substrate_recipes.PowMiner.{Metadata, State, u256_max, mine, rounds}
use substrate_recipes.PowMiner.Finds.{mine_found, mine_missed, ltb→Meets, seal_of, Meets}

All-append {ℓ κ} :
    {A : Type ℓ} (P : A → Type κ) (xs ys : List A) → All P xs → All P ys → All P (xs ++ ys)
All-append P [] ys hs h = h
All-append P (x ∷ xs) ys (hx, hs) h = (hx, All-append P xs ys hs h)

-- Work whose difficulty is a word; no work is none.
abbrev pub IsWork : Option Metadata → Type 0
IsWork none = Unit
IsWork (some metadata) = metadata.difficulty < u256

module _ (crypto : Crypto) where
  -- A raw seal that the algorithm accepts for the work it was made for.
  unfoldable pub IsAccepted : Metadata × List ℕ → Type 0
  IsAccepted (metadata, raw) =
      (parent : ℕ) (pre_digest : Option (List ℕ))
      → (minimal_algorithm crypto {E = ⊥}).verify parent metadata.pre_hash pre_digest raw
          metadata.difficulty
        ≡ inr true

  accepted :
      IsCodec crypto
      → (metadata : Metadata) (nonce : ℕ) → metadata.difficulty < u256
      → nonce < u256
      → Meets crypto metadata nonce
      → IsAccepted (metadata, crypto.encode_seal (seal_of crypto metadata nonce))
  unfolding IsAccepted Meets seal_of
  accepted law metadata nonce d n meets parent pre_digest =
      let c = compute crypto (record {
        difficulty = metadata.difficulty;
        pre_hash = metadata.pre_hash;
        nonce = nonce;
      }) in
      let at = (seal_of crypto metadata nonce).work * metadata.difficulty in
      ap
        (λ raw.
          (minimal_algorithm crypto {E = ⊥}).verify parent metadata.pre_hash pre_digest raw
            metadata.difficulty)
        (sym (append-nil (crypto.encode_seal c)))
      ∙ verify-compute crypto law parent metadata.pre_hash metadata.difficulty nonce pre_digest [] d
          n
      ∙ ap inr (lt→ltb at u256 meets)

  -- The nonce to try is never the last one, and all that was submitted is accepted.
  unfoldable pub IsSafe : State → Type 0
  IsSafe s = (s.nonce < u256_max) × All IsAccepted s.submitted

  mine-IsSafe :
      IsCodec crypto
      → (m : Option Metadata) (s : State) → IsWork m
      → IsSafe s
      → IsSafe (mine crypto m s)
  unfolding mine IsSafe
  mine-IsSafe law none s work safe = safe
  mine-IsSafe law (some metadata) s work (small, safe) =
      let at = (seal_of crypto metadata s.nonce).work * metadata.difficulty in
      elim (Bool-cases (ltb at u256)) [
        | inl here ↦
            let meets = ltb→Meets crypto metadata s.nonce here in
            subst IsSafe (sym (mine_found crypto metadata s meets)) (
              omega arith,
              All-append IsAccepted s.submitted
                  ((metadata, crypto.encode_seal (seal_of crypto metadata s.nonce)) ∷ []) safe
                  (accepted law metadata s.nonce work (omega arith) meets, tt),
            )
        | inr later ↦
            subst IsSafe (sym (mine_missed crypto metadata s small (ground arith)))
              (ground arith, safe)
      ]

  -- With a codec that keeps its promises, from a state whose nonce is below the last one and whose
  -- submitted seals are accepted: however the work changes from round to round, of a difficulty
  -- that is a word, these hold again, so that the loop only submits seals that the algorithm
  -- accepts for the work they were made for.
  pub rounds-IsSafe :
      IsCodec crypto
      → (ms : List (Option Metadata)) (s : State) → All IsWork ms
      → IsSafe s
      → IsSafe (rounds crypto ms s)
  unfolding rounds
  rounds-IsSafe law [] s work safe = safe
  rounds-IsSafe law (m ∷ ms) s (work, works) safe =
      rounds-IsSafe law ms (mine crypto m s) works (mine-IsSafe law m s work safe)
