-- ===== src/Sha3Pow/Tests.antt =====
-- Seals under a hash that is small at one nonce only.
use substrate_recipes.Prelude.{
  ℕ, ◌*◌, ◌≡◌, ◌↔◌, refl, true, false, none, List, [], ◌∷◌, ◌++◌, arith, ltb, ◌⊎◌, inr,
}
use substrate_recipes.Mock.Hash.{crypto, crypto-IsCodec}
use substrate_recipes.Sha3Pow.{u256, hash_meets_difficulty, compute, minimal_algorithm}
use substrate_recipes.Sha3Pow.Verify.{IsProof, verify_lem, verify-compute}

abbrev raw : List ℕ
raw = 1000 ∷ 7 ∷ 2 ∷ []

abbrev client : ℕ → ℕ ⊎ ℕ
client parent = inr 40

verify_lem_example :
    let r = (minimal_algorithm crypto {E = ℕ}).verify 0 5 none raw 1000 in
    ((r ≡ inr true) ↔ IsProof crypto 5 1000 raw) × ((r ≡ inr true) ⊎ (r ≡ inr false))
verify_lem_example = verify_lem crypto 0 5 1000 none raw

-- A good nonce with a byte behind its seal.
verify-compute_example :
    let seal = compute crypto (record { difficulty = 1000; pre_hash = 5; nonce = 2 }) in
    (minimal_algorithm crypto {E = ℕ}).verify 0 5 none (crypto.encode_seal seal ++ (9 ∷ [])) 1000
    ≡ inr (ltb (seal.work * 1000) u256)
verify-compute_example =
    verify-compute crypto crypto-IsCodec 0 5 1000 2 none (9 ∷ []) (omega arith) (omega arith)

accepted :
    (minimal_algorithm crypto {E = ℕ}).verify 0 5 none (1000 ∷ 7 ∷ 2 ∷ 9 ∷ []) 1000 ≡ inr true
unfolding minimal_algorithm compute hash_meets_difficulty
accepted = refl

rejected : (minimal_algorithm crypto {E = ℕ}).verify 0 5 none (1000 ∷ 8 ∷ 2 ∷ []) 1000 ≡ inr false
unfolding minimal_algorithm compute hash_meets_difficulty
rejected = refl
