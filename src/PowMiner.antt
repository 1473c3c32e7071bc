-- ===== src/PowMiner.antt =====
-- The loop that mines (nodes/basic-pow/src/service.rs, and the same text in
-- nodes/hybrid-consensus/src/service.rs): it tries one nonce after the other on the work that the
-- import of blocks hands out, and submits what it finds.
pub mod Finds
pub mod Submits
mod Tests
use substrate_recipes.Prelude.{
  ℕ, ◌+◌, ◌-◌, ◌≡◌, Bool, Option, none, some, List, [], ◌∷◌, ◌++◌, ltb, ◌==◌, if◌then◌else◌, min,
}
use substrate_recipes.Sha3Pow.{u256, hash_meets_difficulty, Seal, Compute, compute, Crypto}

-- `MiningMetadata`, what the loop reads of it.
pub record Metadata : Type 0 where
  pub pre_hash : ℕ
  pub difficulty : ℕ

-- The nonce to try next, and the raw seals that were submitted, each with the work it is for.
pub record State : Type 0 where
  pub nonce : ℕ
  pub submitted : List (Metadata × List ℕ)

abbrev pub u256_max : ℕ
u256_max = u256 - 1

abbrev saturating_add : ℕ → ℕ → ℕ
saturating_add a b = min (a + b) u256_max

abbrev pub start : State
start = record { nonce = 0; submitted = [] }

module _ (crypto : Crypto) where
  -- One round of the loop. Without work it sleeps.
  pub mine : Option Metadata → State → State
  unfolding hash_meets_difficulty compute
  mine none s = s
  mine (some metadata) s =
      let seal = compute crypto (record {
        difficulty = metadata.difficulty;
        pre_hash = metadata.pre_hash;
        nonce = s.nonce;
      }) in
      if hash_meets_difficulty seal.work seal.difficulty
      then record {
        nonce = 0;
        submitted = s.submitted ++ ((metadata, crypto.encode_seal seal) ∷ []);
      }
      else let nonce = saturating_add s.nonce 1 in
        record s { nonce = if nonce == u256_max then 0 else nonce }

  unfoldable pub rounds : List (Option Metadata) → State → State
  unfolding mine
  rounds [] s = s
  rounds (m ∷ ms) s = rounds ms (mine m s)
