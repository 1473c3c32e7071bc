-- ===== src/WeightFee/Fees.antt =====
-- The fees that the polynomials come to, by the evaluation of `frame_support`.
use substrate_recipes.Prelude.{
  ℕ, ◌+◌, ◌-◌, ◌*◌, ◌/◌, ◌^◌, ◌≤◌, ◌<◌, ◌≡◌, refl, ap, ◌∙◌, true, false, List, [], ◌∷◌, ◌++◌, arith,
  min, if◌then◌else◌,
}
use native.Mathlib.Nat.{pow-suc, pow-zero}
use substrate_recipes.WeightFee.{Coefficient, linear_polynomial, quadratic_polynomial}

-- What `WeightToFeePolynomial::calc` documents: the terms are taken in the order of the list, from
-- nothing, each added or taken away with saturation at the bounds of a `u128`. A term without
-- saturation is the integer coefficient times the power, and the fraction of the power, for which
-- `frac_mul` stands: between rounding down and up.
pub record IsCalc (calc : List Coefficient → ℕ → ℕ) (frac_mul : ℕ → ℕ → ℕ) : Type 0 where
  pub calc_nil : (w : ℕ) → calc [] w ≡ 0
  pub calc_snoc :
      (cs : List Coefficient) (c : Coefficient) (w : ℕ)
      → let term = c.coeff_integer * w ^ c.degree + frac_mul c.coeff_frac (w ^ c.degree) in
        term < 2 ^ 128
        → calc (cs ++ (c ∷ [])) w
          ≡ (if c.negative then calc cs w - term else min (calc cs w + term) (2 ^ 128 - 1))
  pub frac_mul_zero : (x : ℕ) → frac_mul 0 x ≡ 0
  pub frac_mul_near :
      (parts x : ℕ)
      → (parts * x / 1000000000 ≤ frac_mul parts x)
        × (frac_mul parts x ≤ parts * x / 1000000000 + 1)

pow_one : (w : ℕ) → w ^ 1 ≡ w
pow_one w = let e = pow-suc w 0 in let z = pow-zero w in omega (arith, e ∙ ap (λ x. x * w) z)

pow_two : (w : ℕ) → w ^ 2 ≡ w * w
pow_two w = pow-suc w 1 ∙ ap (λ x. x * w) (pow_one w)

module _ (calc : List Coefficient → ℕ → ℕ) (frac_mul : ℕ → ℕ → ℕ) (law : IsCalc calc frac_mul) where
  -- The linear fee is the weight times the ratio, as long as that is a `u128`.
  pub calc-linear_polynomial : (c w : ℕ) → c * w < 2 ^ 128 → calc (linear_polynomial c) w ≡ c * w
  unfolding linear_polynomial
  calc-linear_polynomial c w small =
      let k : Coefficient = record {
        coeff_integer = c;
        coeff_frac = 0;
        negative = false;
        degree = 1;
      } in
      let term : c * w ^ 1 + frac_mul 0 (w ^ 1) ≡ c * w =
        rw (pow_one w, law.frac_mul_zero w) (omega arith) in
      let fits : c * w ^ 1 + frac_mul 0 (w ^ 1) < 2 ^ 128 = rw term small in
      law.calc_snoc [] k w fits ∙ rw (term, law.calc_nil w) (omega (arith, small))

  -- With an evaluation that does what the trait documents, for a weight that is a `u64` and whose
  -- square, three times, is a `u128`: the quadratic fee is 3 w^2 less 2.4 w, with the fraction
  -- rounded, and not below zero.
  pub calc-quadratic_polynomial :
      (w : ℕ)
      → w < 2 ^ 64
      → 3 * (w * w) < 2 ^ 128
      → calc quadratic_polynomial w ≡ 3 * (w * w) - (2 * w + frac_mul 400000000 w)
  unfolding quadratic_polynomial
  calc-quadratic_polynomial w weight_bits small =
      let q : Coefficient = record {
        coeff_integer = 3;
        coeff_frac = 0;
        negative = false;
        degree = 2;
      } in
      let l : Coefficient = record {
        coeff_integer = 2;
        coeff_frac = 400000000;
        negative = true;
        degree = 1;
      } in
      let square : 3 * w ^ 2 + frac_mul 0 (w ^ 2) ≡ 3 * (w * w) =
        rw (pow_two w, law.frac_mul_zero (w * w)) (omega arith) in
      let weight : 2 * w ^ 1 + frac_mul 400000000 (w ^ 1) ≡ 2 * w + frac_mul 400000000 w =
        rw (pow_one w) refl in
      let first : calc (q ∷ []) w ≡ 3 * (w * w) =
        law.calc_snoc [] q w (rw square small)
        ∙ rw (square, law.calc_nil w) (omega (arith, small)) in
      law.calc_snoc (q ∷ []) l w (
        rw weight
          (let (low, high) = law.frac_mul_near 400000000 w in omega (arith, weight_bits, high)))
      ∙ rw (weight, first) refl
