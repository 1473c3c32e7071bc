-- ===== src/ConstantConfig.antt =====
-- The constant-config pallet (pallets/constant-config/src/lib.rs): a value to which bounded amounts
-- are added, and which is cleared at regular blocks.
pub mod Blocks
mod Tests
use substrate_recipes.Prelude.{
  ℕ, ◌%◌, Bool, true, false, Option, none, some, List, [], ◌∷◌, ◌++◌, leb, ◌==◌, if◌then◌else◌,
}
use substrate_recipes.Prelude.Words.{checked_add}
use substrate_recipes.Frame.{
  Frame, Call, signed, gets, ensure, ok_or, expect, modify, other, pure, ◌>>=◌, ◌>>◌,
}

pub data Event : Type 0 where
  added : ℕ → ℕ → ℕ → Event
  cleared : ℕ → Event

pub record State : Type 0 where
  pub single_value : ℕ
  pub events : List Event

-- The two constants of the `Config` trait.
pub record Config : Type 0 where
  pub max_addend : ℕ
  pub clear_frequency : ℕ

abbrev deposit_event : Event → State → State
deposit_event e s = record s { events = s.events ++ (e ∷ []) }

-- `n % d`, which panics for zero.
abbrev remainder : ℕ → ℕ → Option ℕ
remainder n d = if d == 0 then none else some (n % d)

abbrev clear : State → State
clear s = deposit_event (cleared s.single_value) (record s { single_value = 0 })

module _ (config : Config) where
  unfoldable pub on_finalize : ℕ → Call State ⊥ (Unit {0})
  on_finalize n = do
    r ← expect (remainder n config.clear_frequency)
    modify λ s. if r == 0 then clear s else s

  module _ {Origin : Type 0} (frame : Frame Origin) where
    pub add_value : Origin → ℕ → Call State ⊥ (Unit {0})
    add_value origin val_to_add = do
      signed frame origin
      ensure (leb val_to_add config.max_addend)
          (other "value must be <= maximum add amount constant")
      c_val ← gets (λ s. s.single_value)
      result ← ok_or (checked_add 32 c_val val_to_add) (other "Addition overflowed")
      modify λ s. record s { single_value = result }
      modify (deposit_event (added c_val val_to_add result))

module _ {Origin : Type 0} (frame : Frame Origin) where
  pub set_value : Origin → ℕ → Call State ⊥ (Unit {0})
  set_value origin value = do signed frame origin; modify λ s. record s { single_value = value }
