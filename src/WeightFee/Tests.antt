-- ===== src/WeightFee/Tests.antt =====
-- Fees of a weight of ten, by an evaluation whose fractions are rounded down.
use substrate_recipes.Prelude.{
  ℕ, ◌+◌, ◌-◌, ◌*◌, ◌/◌, ◌^◌, ◌≡◌, refl, List, [], ◌∷◌, ◌++◌, arith, min, if◌then◌else◌,
}
use substrate_recipes.WeightFee.{Coefficient, quadratic_polynomial}
use substrate_recipes.WeightFee.Fees.{IsCalc, calc-quadratic_polynomial}

abbrev frac_mul : ℕ → ℕ → ℕ
frac_mul parts x = parts * x / 1000000000

abbrev step : ℕ → ℕ → Coefficient → ℕ
step w fee c =
    let term = c.coeff_integer * w ^ c.degree + frac_mul c.coeff_frac (w ^ c.degree) in
    if c.negative then fee - term else min (fee + term) (2 ^ 128 - 1)

fold : (ℕ → Coefficient → ℕ) → ℕ → List Coefficient → ℕ
fold f fee [] = fee
fold f fee (c ∷ cs) = fold f (f fee c) cs

fold-snoc :
    (f : ℕ → Coefficient → ℕ) (fee : ℕ) (cs : List Coefficient) (c : Coefficient)
    → fold f fee (cs ++ (c ∷ [])) ≡ f (fold f fee cs) c
unfolding fold
fold-snoc f fee [] c = refl
fold-snoc f fee (d ∷ cs) c = fold-snoc f (f fee d) cs c

abbrev calc : List Coefficient → ℕ → ℕ
unfolding fold
calc cs w = fold (step w) 0 cs

calc-IsCalc : IsCalc calc frac_mul
unfolding calc fold
calc-IsCalc = record {
  calc_nil = λ w. refl;
  calc_snoc = λ cs c w small. fold-snoc (step w) 0 cs c;
  frac_mul_zero = λ x. omega arith;
  frac_mul_near = λ parts x. (omega arith, omega arith);
}

calc-quadratic_polynomial_example :
    calc quadratic_polynomial 10 ≡ 3 * (10 * 10) - (2 * 10 + frac_mul 400000000 10)
calc-quadratic_polynomial_example =
    calc-quadratic_polynomial calc frac_mul calc-IsCalc 10 (omega arith) (omega arith)
