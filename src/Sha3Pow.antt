-- ===== src/Sha3Pow.antt =====
-- The proof of work (consensus/sha3pow/src/lib.rs): the test of a hash against a difficulty, what
-- is hashed, and the two algorithms that verify a seal.
pub mod Verify
mod Tests
use substrate_recipes.Prelude.{
  ℕ, ◌*◌, ◌%◌, ◌^◌, ◌≡◌, ◌<◌, Bool, true, false, not, ◌&&◌, Option, none, some, List, ltb, ◌==◌,
  if◌then◌else◌, ◌⊎◌, inl, inr,
}

-- `U256`, and `H256` by the number that its bytes spell.
abbrev pub u256 : ℕ
u256 = 2 ^ 256

abbrev overflowing_mul : ℕ → ℕ → ℕ × Bool
overflowing_mul a b = (a * b % u256, not (ltb (a * b) u256))

unfoldable pub hash_meets_difficulty : ℕ → ℕ → Bool
hash_meets_difficulty hash difficulty =
    let (product, overflowed) = overflowing_mul hash difficulty in not overflowed

pub record Seal : Type 0 where
  pub difficulty : ℕ
  pub work : ℕ
  pub nonce : ℕ

-- `#[derive(PartialEq)]`
abbrev seal_eq : Seal → Seal → Bool
seal_eq a b = a.difficulty == b.difficulty && a.work == b.work && a.nonce == b.nonce

pub record Compute : Type 0 where
  pub difficulty : ℕ
  pub pre_hash : ℕ
  pub nonce : ℕ

-- What other crates do: SHA3-256, the SCALE encodings, and the decoder of a seal, which reads it off
-- the front of its input.
pub record Crypto : Type 0 where
  pub digest : List ℕ → ℕ
  pub encode_compute : Compute → List ℕ
  pub encode_seal : Seal → List ℕ
  pub decode_seal : List ℕ → Option Seal

-- The errors of `sc_consensus_pow` that this crate makes: one with what the client says.
pub data Error (E : Type 0) : Type 0 where
  environment : E → Error E

-- `PowAlgorithm`: the parent and the hash before the seal are hashes, the digest before it may be
-- missing.
pub record PowAlgorithm (E : Type 0) : Type 0 where
  pub difficulty : ℕ → Error E ⊎ ℕ
  pub verify : ℕ → ℕ → Option (List ℕ) → List ℕ → ℕ → Error E ⊎ Bool

module _ (crypto : Crypto) where
  open crypto use {digest, encode_compute, decode_seal}

  unfoldable pub compute : Compute → Seal
  compute c = record {
    difficulty = c.difficulty;
    work = digest (encode_compute c);
    nonce = c.nonce;
  }

  module _ {E : Type 0} where
    abbrev minimal_check : ℕ → ℕ → Option Seal → Error E ⊎ Bool
    unfolding compute
    minimal_check pre_hash difficulty none = inr false
    minimal_check pre_hash difficulty (some seal) =
        let c : Compute = record {
          difficulty = difficulty;
          pre_hash = pre_hash;
          nonce = seal.nonce;
        } in
        if not (hash_meets_difficulty seal.work difficulty)
        then inr false
        else if not (seal_eq (compute c) seal)
        then inr false
        else inr true

    pub minimal_algorithm : PowAlgorithm E
    minimal_algorithm = record {
      difficulty = λ parent. inr 1000000;
      verify = λ parent pre_hash pre_digest seal difficulty.
          minimal_check pre_hash difficulty (decode_seal seal);
    }

    abbrev sha3_check : ℕ → ℕ → Option Seal → Error E ⊎ Bool
    unfolding compute
    sha3_check pre_hash difficulty none = inr false
    sha3_check pre_hash difficulty (some seal) =
        let c : Compute = record {
          difficulty = difficulty;
          pre_hash = pre_hash;
          nonce = seal.nonce;
        } in
        if not (hash_meets_difficulty seal.work difficulty)
        then inr false
        else if not (seal_eq (compute c) seal)
        then inr false
        else inr true

    abbrev from_runtime : E ⊎ ℕ → Error E ⊎ ℕ
    from_runtime (inl e) = inl (environment e)
    from_runtime (inr d) = inr d

    -- The client answers with the difficulty that the runtime sets at a block.
    pub sha3_algorithm : (ℕ → E ⊎ ℕ) → PowAlgorithm E
    sha3_algorithm client = record {
      difficulty = λ parent. from_runtime (client parent);
      verify = λ parent pre_hash pre_digest seal difficulty.
          sha3_check pre_hash difficulty (decode_seal seal);
    }
