-- ===== src/FixedPoint.antt =====
-- The fixed-point pallet (pallets/fixed-point/src/lib.rs): three accumulators that are multiplied by
-- given factors.
pub mod Manual
mod Tests
use substrate_recipes.Prelude.{
  ℕ, ◌-◌, ◌/◌, ◌^◌, ◌*◌, Bool, true, false, Option, none, some, List, [], ◌∷◌, ◌++◌, ltb, not,
}
use substrate_recipes.Prelude.Words.{plain_mul}
use substrate_recipes.Frame.{
  Frame, Call, signed, gets, ensure, ok_or, expect, modify, module_error, ◌>>=◌, ◌>>◌,
}

-- A value of any of the three types is its bits: `Permill` counts parts in a million, `U16F16` and
-- the manual format parts in 65536.
pub data Event : Type 0 where
  permill_updated fixed_updated manual_updated : ℕ → ℕ → Event

pub data Error : Type 0 where
  overflow : Error

pub record State : Type 0 where
  pub permill_value : ℕ
  pub fixed_value : ℕ
  pub manual_value : ℕ
  pub events : List Event

-- `ManualAccumulatorDefaultValue`, `1 << 16`.
abbrev pub manual_default : ℕ
manual_default = 2 ^ 16

-- The multiplications of `Permill` and of `U16F16`, which are other crates' code.
pub record Arithmetic : Type 0 where
  pub permill_saturating_mul : ℕ → ℕ → ℕ
  pub fixed_checked_mul : ℕ → ℕ → Option ℕ

abbrev deposit_event : Event → State → State
deposit_event e s = record s { events = s.events ++ (e ∷ []) }

module _ {Origin : Type 0} (frame : Frame Origin) where
  pub update_permill : Arithmetic → Origin → ℕ → Call State Error (Unit {0})
  update_permill arithmetic origin new_factor = do
    signed frame origin
    old_accumulated ← gets (λ s. s.permill_value)
    let new_product = arithmetic.permill_saturating_mul old_accumulated new_factor
    modify λ s. record s { permill_value = new_product }
    modify (deposit_event (permill_updated new_factor new_product))

  pub update_fixed : Arithmetic → Origin → ℕ → Call State Error (Unit {0})
  update_fixed arithmetic origin new_factor = do
    signed frame origin
    old_accumulated ← gets (λ s. s.fixed_value)
    new_product ←
        ok_or (arithmetic.fixed_checked_mul old_accumulated new_factor) (module_error overflow)
    modify λ s. record s { fixed_value = new_product }
    modify (deposit_event (fixed_updated new_factor new_product))

  -- The product of the two `u32` is taken in `u64`.
  pub update_manual : Bool → Origin → ℕ → Call State Error (Unit {0})
  update_manual overflow_checks origin new_factor = do
    signed frame origin
    old_accumulated ← gets (λ s. s.manual_value)
    raw_product ← expect (plain_mul 64 overflow_checks old_accumulated new_factor)
    let shifted_product = raw_product / 2 ^ 16
    ensure (not (ltb (2 ^ 32 - 1) shifted_product)) (module_error overflow)
    modify λ s. record s { manual_value = shifted_product }
    modify (deposit_event (manual_updated new_factor shifted_product))
