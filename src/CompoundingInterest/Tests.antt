-- ===== src/CompoundingInterest/Tests.antt =====
-- The continuous account in a block.
use substrate_recipes.Prelude.{
  ℕ, ◌+◌, ◌-◌, ◌*◌, ◌/◌, ◌^◌, ◌≡◌, refl, false, none, some, List, [], ◌∷◌, arith, ltb, leb, ◌&&◌,
  ◌==◌, if◌then◌else◌, lt→ltb, All,
}
use substrate_recipes.Frame.{ok}
use substrate_recipes.Mock.{mock_frame}
use substrate_recipes.CompoundingInterest.{State, Arithmetic}
use substrate_recipes.CompoundingInterest.Continuous.{
  IsFixed, Move, deposit, withdraw, run, run_lem, zero_point, unit,
}

-- Fixed-point numbers by their units, with a product for the factors zero and one alone.
abbrev units : Arithmetic ℕ
units = record {
  percent_mul = λ rate x. x * rate / 100;
  from_num = λ n. if ltb n (2 ^ 31) then some (zero_point + n * unit) else none;
  fixed_add = λ x y.
      if leb zero_point (x + y) && ltb (x + y) (zero_point + 2 ^ 64)
      then some (x + y - zero_point)
      else none;
  fixed_sub = λ x y.
      if leb y (x + zero_point) && ltb (x + zero_point) (y + 2 ^ 64)
      then some (x + zero_point - y)
      else none;
  fixed_mul = λ x y. if y == zero_point then some zero_point else some x;
  fixed_div = λ x d. some ((x - zero_point) / d + zero_point);
  exp = λ x. some (zero_point + unit);
}

units-IsFixed : IsFixed units
units-IsFixed = record {
  raw = λ x. x;
  from_num_lem = λ n h. (zero_point + n * unit, rw (lt→ltb n (2 ^ 31) h) refl, refl);
  fixed_add_lem = λ x y low high. (x + y - zero_point, ground arith, omega (arith, low));
  fixed_sub_lem = λ x y low high. (x + zero_point - y, ground arith, omega (arith, low));
  div_lem = λ x. ((x - zero_point) / 20 + zero_point, refl);
  mul-zero = λ x y h. (zero_point, ground (arith, h), refl);
  mul-one = λ x y h. ground (arith, h);
  exp-zero = λ x h. (zero_point + unit, refl, refl);
}

-- Ten in the account, and five more are put in, but fifty taken out.
abbrev ten : State ℕ
ten = record {
  continuous_account = record { principal = zero_point + 10 * unit; deposit_date = 4 };
  discrete_account = 0;
  events = [];
}

abbrev moves : List Move
moves = deposit 5 ∷ withdraw 50 ∷ []

run_lem_example :
    let (rs, s') = run false units-IsFixed mock_frame 32 4 (some 1) moves ten in
    All (λ r. r ≡ ok tt) rs
    × (s'.continuous_account.deposit_date ≡ 4)
    × (s'.continuous_account.principal + 50 * unit ≡ zero_point + 10 * unit + 5 * unit)
unfolding units-IsFixed
run_lem_example =
    run_lem false units-IsFixed mock_frame 32 moves 4 1 (some 1) ten refl refl (omega arith)
      (omega arith) (omega arith) (omega arith)
