-- ===== src/WeightFee.antt =====
-- The two fee polynomials of the weight-fee runtime (runtimes/weight-fee-runtime/src/lib.rs).
pub mod Fees
mod Tests
use substrate_recipes.Prelude.{ℕ, Bool, true, false, List, [], ◌∷◌}

-- `WeightToFeeCoefficient`. A `Perbill` is its parts of a thousand million.
pub record Coefficient : Type 0 where
  pub coeff_integer : ℕ
  pub coeff_frac : ℕ
  pub negative : Bool
  pub degree : ℕ

-- `FeeWeightRatio`
abbrev pub fee_weight_ratio : ℕ
fee_weight_ratio = 1000

-- `LinearWeightToFee::polynomial`, for the constant that it gets.
pub linear_polynomial : ℕ → List Coefficient
linear_polynomial c =
    record { coeff_integer = c; coeff_frac = 0; negative = false; degree = 1 } ∷ []

-- `QuadraticWeightToFee::polynomial`
pub quadratic_polynomial : List Coefficient
quadratic_polynomial =
    let linear : Coefficient = record {
      coeff_integer = 2;
      coeff_frac = 400000000;
      negative = true;
      degree = 1;
    } in
    let quadratic : Coefficient = record {
      coeff_integer = 3;
      coeff_frac = 0;
      negative = false;
      degree = 2;
    } in
    quadratic ∷ linear ∷ []
