-- ===== src/Randomness.antt =====
-- The randomness demo (pallets/randomness/src/lib.rs): a nonce in storage makes the subject of
-- every draw.
pub mod Subjects
mod Tests
use substrate_recipes.Prelude.{ℕ, List, [], ◌∷◌, ◌++◌}
use substrate_recipes.Prelude.Words.{wrapping_add}
use substrate_recipes.Frame.{Frame, Call, signed, modify, gets, ◌>>=◌, ◌>>◌, pure}

pub data Event : Type 0 where
  randomness_consumed : ℕ → ℕ → Event

-- The encoding of a `u32`, and the source of randomness that the runtime gives, which changes from block
-- to block: in each block a seed, and a hash for a subject. Both hashes are numbers.
pub record Config : Type 0 where
  pub encode : ℕ → List ℕ
  pub random_seed : ℕ → ℕ
  pub random : ℕ → List ℕ → ℕ

-- `Nonce`, and the events deposited so far.
pub record State : Type 0 where
  pub nonce : ℕ
  pub events : List Event

abbrev deposit_event : Event → State → State
deposit_event e s = record s { events = s.events ++ (e ∷ []) }

module _ (config : Config) where
  open config use {encode, random_seed, random}

  pub encode_and_update_nonce : Call State ⊥ (List ℕ)
  encode_and_update_nonce = do
    nonce ← gets (λ s. s.nonce)
    modify λ s. record s { nonce = wrapping_add 32 nonce 1 }
    pure (encode nonce)

  -- The call in block `now`.
  pub consume_randomness : {Origin : Type 0} → Frame Origin → ℕ → Origin → Call State ⊥ (Unit {0})
  unfolding encode_and_update_nonce
  consume_randomness frame now origin = do
    who ← signed frame origin
    subject ← encode_and_update_nonce
    modify (deposit_event (randomness_consumed (random_seed now) (random now subject)))
