-- ===== src/Sha3Pow/Verify.antt =====
-- What a seal has to be to verify.
use substrate_recipes.Prelude.{
  ℕ, ◌*◌, ◌≡◌, ◌≢◌, ◌<◌, refl, sym, ap, subst, ◌∙◌, ◌↔◌, true, false, Option, none, some, List,
  ◌++◌, arith, ltb, lt→ltb, ◌⊎◌, inl, inr, Option-cases, Bool-cases,
}
use substrate_recipes.Sha3Pow.{
  u256, hash_meets_difficulty, Seal, compute, Crypto, minimal_check, sha3_check, minimal_algorithm,
  sha3_algorithm,
}

pub hash_meets_difficulty_lem :
    (hash difficulty : ℕ)
    → (hash_meets_difficulty hash difficulty ≡ true) ↔ (hash * difficulty < u256)
unfolding hash_meets_difficulty
hash_meets_difficulty_lem hash difficulty = ground arith

seal_ext : (a b : Seal) → a.difficulty ≡ b.difficulty → a.work ≡ b.work → a.nonce ≡ b.nonce → a ≡ b
seal_ext a b d w n = cc

module _ (crypto : Crypto) where
  -- What a raw seal has to be for a hash and a difficulty: it decodes to what computing with its own
  -- nonce gives, and the work times the difficulty is a word.
  unfoldable pub IsProof : ℕ → ℕ → List ℕ → Type 0
  IsProof pre_hash difficulty raw =
      (nonce : ℕ) × let seal =
          compute crypto (record { difficulty = difficulty; pre_hash = pre_hash; nonce = nonce }) in
        (crypto.decode_seal raw ≡ some seal) × (seal.work * difficulty < u256)

  check_sound :
      {E : Type 0} (pre_hash difficulty : ℕ) (seal : Seal)
      → minimal_check crypto {E = E} pre_hash difficulty (some seal) ≡ inr true
      → (seal
          ≡ compute crypto
              (record { difficulty = difficulty; pre_hash = pre_hash; nonce = seal.nonce }))
        × (seal.work * difficulty < u256)
  unfolding minimal_check compute
  check_sound pre_hash difficulty seal h =
      elim (Bool-cases (hash_meets_difficulty seal.work difficulty)) [
        | inl meets ↦ (ground arith, (hash_meets_difficulty_lem seal.work difficulty).0 meets)
        | inr misses ↦ absurd (ground arith)
      ]

  check-compute :
      {E : Type 0} (pre_hash difficulty nonce : ℕ)
      → let seal =
          compute crypto (record { difficulty = difficulty; pre_hash = pre_hash; nonce = nonce }) in
        minimal_check crypto {E = E} pre_hash difficulty (some seal)
        ≡ inr (ltb (seal.work * difficulty) u256)
  unfolding minimal_check compute hash_meets_difficulty
  check-compute pre_hash difficulty nonce = ground arith

  unread :
      {E : Type 0} (pre_hash difficulty : ℕ)
      → minimal_check crypto {E = E} pre_hash difficulty none ≢ inr true
  unfolding minimal_check
  unread pre_hash difficulty = ground arith

  check_total :
      {E : Type 0} (pre_hash difficulty : ℕ) (seal : Option Seal)
      → let r = minimal_check crypto {E = E} pre_hash difficulty seal in
        (r ≡ inr true) ⊎ (r ≡ inr false)
  unfolding minimal_check
  check_total pre_hash difficulty none = inr refl
  check_total pre_hash difficulty (some seal) = ground arith

  checks_agree :
      {E : Type 0} (pre_hash difficulty : ℕ) (seal : Option Seal)
      → sha3_check crypto {E = E} pre_hash difficulty seal
        ≡ minimal_check crypto pre_hash difficulty seal
  unfolding sha3_check minimal_check
  checks_agree pre_hash difficulty none = refl
  checks_agree pre_hash difficulty (some seal) = refl

  -- For every parent, hash, difficulty and digest, verifying returns true exactly on the raw seals
  -- that decode to what computing with their own nonce gives for the hash and the difficulty, with
  -- a work that times the difficulty is a word. Otherwise it returns false; it never is an error.
  pub verify_lem :
      {E : Type 0} (parent pre_hash difficulty : ℕ) (pre_digest : Option (List ℕ)) (raw : List ℕ)
      → let r =
          (minimal_algorithm crypto {E = E}).verify parent pre_hash pre_digest raw difficulty in
        ((r ≡ inr true) ↔ IsProof pre_hash difficulty raw) × ((r ≡ inr true) ⊎ (r ≡ inr false))
  unfolding IsProof minimal_algorithm
  verify_lem {E} parent pre_hash difficulty pre_digest raw = (
    (
      λ h. elim (Option-cases (crypto.decode_seal raw)) [
        | inl e ↦ absurd (
            unread {E = E} pre_hash difficulty
              (ap (minimal_check crypto pre_hash difficulty) (sym e) ∙ h))
        | inr (seal, e) ↦
            let (same, small) =
              check_sound {E = E} pre_hash difficulty seal
                (ap (minimal_check crypto pre_hash difficulty) (sym e) ∙ h) in
            (seal.nonce, (e ∙ ap some same, subst (λ x. x.work * difficulty < u256) same small))
      ],
      λ (nonce, p).
          ap (minimal_check crypto pre_hash difficulty) p.0
          ∙ check-compute pre_hash difficulty nonce
          ∙ ap inr (
              lt→ltb
                ((compute crypto
                    (record { difficulty = difficulty; pre_hash = pre_hash; nonce = nonce })).work
                  * difficulty)
                u256 p.1),
    ),
    check_total pre_hash difficulty (crypto.decode_seal raw),
  )

  -- With one state of the chain the algorithm of the fixed difficulty and the one that asks the runtime
  -- verify alike, whatever the client answers.
  pub verify-sha3_algorithm :
      {E : Type 0} (client : ℕ → E ⊎ ℕ) (parent pre_hash difficulty : ℕ)
      (pre_digest : Option (List ℕ)) (raw : List ℕ)
      → (sha3_algorithm crypto client).verify parent pre_hash pre_digest raw difficulty
        ≡ (minimal_algorithm crypto).verify parent pre_hash pre_digest raw difficulty
  unfolding sha3_algorithm minimal_algorithm
  verify-sha3_algorithm client parent pre_hash difficulty pre_digest raw =
      checks_agree pre_hash difficulty (crypto.decode_seal raw)

  -- What the codec promises: a seal of three words decodes to itself, whatever stands behind it.
  pub record IsCodec : Type 0 where
    pub decode-encode :
        (seal : Seal) (rest : List ℕ)
        → seal.difficulty < u256
        → seal.work < u256
        → seal.nonce < u256
        → crypto.decode_seal (crypto.encode_seal seal ++ rest) ≡ some seal
    pub digest-small : (message : List ℕ) → crypto.digest message < u256

  -- With a codec that keeps its promises, for a difficulty and a nonce that are words: the seal
  -- that is computed verifies where its work times the difficulty is a word, and else does not,
  -- whatever bytes are written behind it; those are not looked at.
  pub verify-compute :
      {E : Type 0}
      → IsCodec
      → (parent pre_hash difficulty nonce : ℕ) (pre_digest : Option (List ℕ)) (rest : List ℕ)
      → difficulty < u256
      → nonce < u256
      → let seal =
          compute crypto (record { difficulty = difficulty; pre_hash = pre_hash; nonce = nonce }) in
        (minimal_algorithm crypto {E = E}).verify parent pre_hash pre_digest
          (crypto.encode_seal seal ++ rest)
          difficulty
        ≡ inr (ltb (seal.work * difficulty) u256)
  unfolding minimal_algorithm compute
  verify-compute law parent pre_hash difficulty nonce pre_digest rest d n =
      let seal =
        compute crypto (record { difficulty = difficulty; pre_hash = pre_hash; nonce = nonce }) in
      ap (minimal_check crypto pre_hash difficulty) (
        law.decode-encode seal rest d
          (law.digest-small (
            crypto.encode_compute
              (record { difficulty = difficulty; pre_hash = pre_hash; nonce = nonce })))
          n)
      ∙ check-compute pre_hash difficulty nonce
