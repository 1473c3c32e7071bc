-- ===== src/Mock/Hash.antt =====
-- A hash that is small at one nonce only, and seals as three numbers.
use substrate_recipes.Prelude.{
  ℕ, ◌^◌, ◌<◌, refl, Option, none, some, List, [], ◌∷◌, arith, ◌==◌, if◌then◌else◌,
}
use substrate_recipes.Sha3Pow.{u256, Seal, Crypto}
use substrate_recipes.Sha3Pow.Verify.{IsCodec}

-- The message is the nonce in front of the rest; only the nonce 2 hashes to a small number.
abbrev digest : List ℕ → ℕ
digest [] = 0
digest (x ∷ xs) = if x == 2 then 7 else 2 ^ 255

abbrev decode_seal : List ℕ → Option Seal
decode_seal [] = none
decode_seal (d ∷ []) = none
decode_seal (d ∷ w ∷ []) = none
decode_seal (d ∷ w ∷ n ∷ rest) = some (record { difficulty = d; work = w; nonce = n })

abbrev pub crypto : Crypto
crypto = record {
  digest = digest;
  encode_compute = λ c. c.nonce ∷ c.difficulty ∷ c.pre_hash ∷ [];
  encode_seal = λ s. s.difficulty ∷ s.work ∷ s.nonce ∷ [];
  decode_seal = decode_seal;
}

digest_small : (message : List ℕ) → digest message < u256
digest_small [] = omega arith
digest_small (x ∷ xs) = ground arith

pub crypto-IsCodec : IsCodec crypto
crypto-IsCodec = record { decode-encode = λ seal rest d w n. refl; digest-small = digest_small }
