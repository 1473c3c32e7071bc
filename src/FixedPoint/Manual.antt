-- ===== src/FixedPoint/Manual.antt =====
-- The manual multiplication: it never overflows in between, rounds down by less than one unit, and
-- refuses exactly the products that are no `u32`.
use substrate_recipes.Prelude.{
  ℕ, ◌+◌, ◌*◌, ◌/◌, ◌^◌, ◌<◌, ◌≤◌, ◌≡◌, Bool, some, [], ◌∷◌, ◌++◌, arith, ltb, if◌then◌else◌,
  lt→ltb,
}
use substrate_recipes.Frame.{Frame, ok, err, module_error}
use substrate_recipes.FixedPoint.{
  State, Arithmetic, update_manual, update_permill, update_fixed, overflow, manual_updated,
}

-- The product of two `u32` is a `u64`.
product_fits : (a b : ℕ) → a < 2 ^ 32 → b < 2 ^ 32 → a * b < 2 ^ 64
product_fits a b h k = grind arith

module _ {Origin : Type 0} (frame : Frame Origin) (overflow_checks : Bool) where
  -- For a signed caller and values of 32 bits, the accumulator becomes the product divided by 65536
  -- where that is a `u32`, which is reported; otherwise the call fails and nothing changes. It never
  -- panics.
  pub update_manual_lem :
      (origin : Origin) (who factor : ℕ) (s : State)
      → frame.ensure_signed origin ≡ some who
      → s.manual_value < 2 ^ 32
      → factor < 2 ^ 32
      → let product = s.manual_value * factor / 65536 in
        update_manual frame overflow_checks origin factor s ≡ (
          if ltb product (2 ^ 32)
          then (
            ok tt,
            record s {
              manual_value = product;
              events = s.events ++ (manual_updated factor product ∷ []);
            },
          )
          else (err (module_error overflow), s))
  unfolding update_manual
  update_manual_lem origin who factor s e h k =
      rw (e, lt→ltb (s.manual_value * factor) (2 ^ 64) (product_fits s.manual_value factor h k))
        (ground arith)

  -- For a signed caller and values of 32 bits whose product scaled back is a `u32`: what is stored,
  -- times 65536, is the exact product less a rounding of under 65536, and is a `u32`.
  pub update_manual_rounds :
      (origin : Origin) (who factor : ℕ) (s : State)
      → frame.ensure_signed origin ≡ some who
      → s.manual_value < 2 ^ 32
      → factor < 2 ^ 32
      → s.manual_value * factor / 65536 < 2 ^ 32
      → let s' = (update_manual frame overflow_checks origin factor s).1 in
        (s'.manual_value * 65536 ≤ s.manual_value * factor)
        × (s.manual_value * factor < s'.manual_value * 65536 + 65536)
        × (s'.manual_value < 2 ^ 32)
  update_manual_rounds origin who factor s e h k fits =
      rw (update_manual_lem origin who factor s e h k, lt→ltb _ _ fits)
        (omega arith, omega arith, fits)

  -- Each of the three calls leaves the other two accumulators alone.
  pub accumulators_independent :
      (a : Arithmetic) (origin : Origin) (x : ℕ) (s : State)
      → let s1 = (update_permill frame a origin x s).1 in
        let s2 = (update_fixed frame a origin x s).1 in
        let s3 = (update_manual frame overflow_checks origin x s).1 in
        (s1.fixed_value ≡ s.fixed_value)
        × (s1.manual_value ≡ s.manual_value)
        × (s2.permill_value ≡ s.permill_value)
        × (s2.manual_value ≡ s.manual_value)
        × (s3.permill_value ≡ s.permill_value)
        × (s3.fixed_value ≡ s.fixed_value)
  unfolding update_permill update_fixed update_manual
  accumulators_independent a origin x s = ground arith
