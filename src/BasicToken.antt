-- ===== src/BasicToken.antt =====
-- The token pallet (pallets/basic-token/src/lib.rs).
pub mod Supply
mod Tests
use substrate_recipes.Prelude.{
  ℕ, Bool, true, false, Option, none, some, List, [], ◌∷◌, ◌++◌, not, unwrap_or,
}
use substrate_recipes.Prelude.Words.{checked_add, checked_sub}
use substrate_recipes.Frame.{
  Frame, Call, signed, gets, ensure, ok_or, expect, modify, module_error, ◌>>=◌, ◌>>◌,
}
use substrate_recipes.Frame.Storage.{StorageMap, insert}

pub data Event : Type 0 where
  initialized : ℕ → Event
  transferred : ℕ → ℕ → ℕ → Event

pub data Error : Type 0 where
  already_initialized insufficient_funds : Error

-- `Balances`, `TotalSupply`, `Init`, and the events deposited so far.
pub record State : Type 0 where
  pub balances : StorageMap ℕ
  pub total_supply : ℕ
  pub is_init : Bool
  pub events : List Event

-- `TotalSupplyDefaultValue`
abbrev pub default_supply : ℕ
default_supply = 21000000

abbrev pub get_balance : ℕ → State → ℕ
get_balance who s = unwrap_or (s.balances who) 0

abbrev set_balance : ℕ → ℕ → State → State
set_balance who balance s = record s { balances = insert who balance s.balances }

module _ {Origin : Type 0} (frame : Frame Origin) where
  pub init : Origin → Call State Error (Unit {0})
  init origin = do
    sender ← signed frame origin
    already ← gets (λ s. s.is_init)
    ensure (not already) (module_error already_initialized)
    modify λ s. set_balance sender s.total_supply s
    modify λ s. record s { is_init = true }

  pub transfer : Origin → ℕ → ℕ → Call State Error (Unit {0})
  transfer origin to value = do
    sender ← signed frame origin
    sender_balance ← gets (get_balance sender)
    receiver_balance ← gets (get_balance to)
    updated_from_balance ←
        ok_or (checked_sub sender_balance value) (module_error insufficient_funds)
    updated_to_balance ← expect (checked_add 64 receiver_balance value)
    modify (set_balance sender updated_from_balance)
    modify (set_balance to updated_to_balance)
    modify λ s. record s { events = s.events ++ (transferred sender to value ∷ []) }
