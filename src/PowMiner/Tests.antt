-- ===== src/PowMiner/Tests.antt =====
-- The loop under a hash that is small at the nonce 2 only.
use substrate_recipes.Prelude.{◌+◌, ◌≡◌, refl, Option, none, some, List, [], ◌∷◌, arith}
use substrate_recipes.Sha3Pow.{compute, hash_meets_difficulty}
use substrate_recipes.Mock.Hash.{crypto, crypto-IsCodec}
use substrate_recipes.PowMiner.{Metadata, start, u256_max, mine, rounds}
use substrate_recipes.PowMiner.Finds.{seal_of, Meets, FindsWithin, rounds-FindsWithin}
use substrate_recipes.PowMiner.Submits.{IsSafe, rounds-IsSafe}

abbrev metadata : Metadata
metadata = record { pre_hash = 5; difficulty = 1000 }

meets : Meets crypto metadata 2
unfolding Meets seal_of compute
meets = omega arith

rounds-FindsWithin_example :
    FindsWithin crypto metadata (u256_max + 2) (record { nonce = 40; submitted = [] })
rounds-FindsWithin_example =
    rounds-FindsWithin crypto metadata 2 (record { nonce = 40; submitted = [] }) (omega arith) meets
      (omega arith)

abbrev work : List (Option Metadata)
work = some metadata ∷ none ∷ some metadata ∷ some metadata ∷ some metadata ∷ []

start-IsSafe : IsSafe crypto start
unfolding IsSafe
start-IsSafe = (omega arith, tt)

rounds-IsSafe_example : IsSafe crypto (rounds crypto work start)
rounds-IsSafe_example =
    rounds-IsSafe crypto crypto-IsCodec work start
      (omega arith, (tt, (omega arith, (omega arith, (omega arith, tt))))) start-IsSafe

mined :
    rounds crypto work start ≡ record { nonce = 1; submitted = (metadata, 1000 ∷ 7 ∷ 2 ∷ []) ∷ [] }
unfolding rounds mine compute hash_meets_difficulty
mined = refl
