-- ===== src/CompoundingInterest/Continuous.antt =====
-- What deposits and withdrawals do to the continuous account.
use substrate_recipes.Prelude.{
  ℕ, ◌+◌, ◌-◌, ◌*◌, ◌^◌, ◌≤◌, ◌<◌, ◌≡◌, refl, Bool, some, List, [], ◌∷◌, arith, le→ltb, All, subst,
}
use substrate_recipes.Frame.{Frame, Outcome, ok, ◌>>=◌}
use substrate_recipes.CompoundingInterest.{
  State, Arithmetic, continuous_interest_rate, value_of_continuous_account, deposit_continuous,
  withdraw_continuous,
}

-- The number of `I32F32` that stands for zero: `raw` counts in units of 2 ^ -32 from the least number.
abbrev pub zero_point : ℕ
zero_point = 2 ^ 63

abbrev pub unit : ℕ
unit = 2 ^ 32

-- What the crate promises of `I32F32`: whole numbers below 2 ^ 31 convert, sums and differences in range
-- are exact, and a product with zero or one, the twentieth of one, and `exp` of zero are what they are.
pub record IsFixed {Fixed : Type 0} (a : Arithmetic Fixed) : Type 0 where
  pub raw : Fixed → ℕ
  pub from_num_lem :
      (n : ℕ) → n < 2 ^ 31 → (x : Fixed) × (a.from_num n ≡ some x) × (raw x ≡ zero_point + n * unit)
  pub fixed_add_lem :
      (x y : Fixed)
      → zero_point ≤ raw x + raw y
      → raw x + raw y < zero_point + 2 ^ 64
      → (z : Fixed) × (a.fixed_add x y ≡ some z) × (raw z + zero_point ≡ raw x + raw y)
  pub fixed_sub_lem :
      (x y : Fixed)
      → raw y ≤ raw x + zero_point
      → raw x + zero_point < raw y + 2 ^ 64
      → (z : Fixed) × (a.fixed_sub x y ≡ some z) × (raw z + raw y ≡ raw x + zero_point)
  pub div_lem : (x : Fixed) → (z : Fixed) × (a.fixed_div x 20 ≡ some z)
  pub mul-zero :
      (x y : Fixed)
      → raw y ≡ zero_point
      → (z : Fixed) × (a.fixed_mul x y ≡ some z) × (raw z ≡ zero_point)
  pub mul-one : (x y : Fixed) → raw y ≡ zero_point + unit → a.fixed_mul x y ≡ some x
  pub exp-zero :
      (x : Fixed)
      → raw x ≡ zero_point
      → (z : Fixed) × (a.exp x ≡ some z) × (raw z ≡ zero_point + unit)

-- A deposit or a withdrawal.
pub data Move : Type 0 where
  deposit withdraw : ℕ → Move

abbrev pub amount_in : List Move → ℕ
amount_in [] = 0
amount_in (deposit x ∷ moves) = x + amount_in moves
amount_in (withdraw x ∷ moves) = amount_in moves

abbrev pub amount_out : List Move → ℕ
amount_out [] = 0
amount_out (deposit x ∷ moves) = amount_out moves
amount_out (withdraw x ∷ moves) = x + amount_out moves

module _ {Fixed Origin : Type 0} (overflow_checks : Bool) {a : Arithmetic Fixed} (fixed : IsFixed a)
    (frame : Frame Origin) (block_bits : ℕ) where
  open fixed use {raw}

  abbrev IsWorth : ℕ → State Fixed → Fixed → Type 0
  IsWorth now s v = value_of_continuous_account overflow_checks a block_bits now s ≡ (ok v, s)

  -- In the block of the last change the account is worth its principal.
  IsWorth-principal :
      (s : State Fixed) → IsWorth s.continuous_account.deposit_date s s.continuous_account.principal
  unfolding value_of_continuous_account continuous_interest_rate
  IsWorth-principal s =
      let now = s.continuous_account.deposit_date in
      let (nothing, n, z) = fixed.from_num_lem 0 (omega arith) in
      let (one, o, _) = fixed.from_num_lem 1 (omega arith) in
      let (rate, r) = fixed.div_lem one in
      let (exponent, m, mz) = fixed.mul-zero rate nothing (omega (arith, z)) in
      let (growth, e, g) = fixed.exp-zero exponent mz in
      let p = fixed.mul-one s.continuous_account.principal growth g in
      let idle : now - now ≡ 0 = omega arith in
      rw (le→ltb now now (omega arith), idle, n, o, ◌>>=◌, r, ◌>>=◌, m, ◌>>=◌, e, ◌>>=◌, p) refl

  IsWorth-now :
      (now : ℕ) (s : State Fixed)
      → s.continuous_account.deposit_date ≡ now
      → IsWorth now s s.continuous_account.principal
  IsWorth-now now s same =
      subst (λ d. IsWorth d s s.continuous_account.principal) same (IsWorth-principal s)

  -- A deposit adds to what the account is worth.
  deposited :
      (now x who : ℕ) (origin : Origin) (s : State Fixed) (v : Fixed)
      → frame.ensure_signed origin ≡ some who
      → IsWorth now s v
      → x < 2 ^ 31
      → raw v + x * unit < 2 ^ 64
      → let (r, s') = deposit_continuous overflow_checks a frame block_bits now origin x s in
        (r ≡ ok tt)
        × (raw s'.continuous_account.principal ≡ raw v + x * unit)
        × (s'.continuous_account.deposit_date ≡ now)
  unfolding deposit_continuous
  deposited now x who origin s v signs worth small fits =
      let (added, n, ra) = fixed.from_num_lem x small in
      let (p, sum, rp) =
        fixed.fixed_add_lem v added (omega (arith, ra)) (omega (arith, ra, fits)) in
      rw (signs, ◌>>=◌, worth, ◌>>=◌, n, ◌>>=◌, sum) (refl, omega (arith, rp, ra), refl)

  -- A withdrawal by a signed origin, where the account can represent the difference, returns ok and
  -- takes from what the account is worth at the block, even more than that.
  pub withdrawn :
      (now x who : ℕ) (origin : Origin) (s : State Fixed) (v : Fixed)
      → frame.ensure_signed origin ≡ some who
      → value_of_continuous_account overflow_checks a block_bits now s ≡ (ok v, s)
      → x < 2 ^ 31
      → x * unit ≤ raw v
      → raw v < 2 ^ 64
      → let (r, s') = withdraw_continuous overflow_checks a frame block_bits now origin x s in
        (r ≡ ok tt)
        × (raw s'.continuous_account.principal + x * unit ≡ raw v)
        × (s'.continuous_account.deposit_date ≡ now)
  unfolding withdraw_continuous
  withdrawn now x who origin s v signs worth small fits top =
      let (taken, n, rt) = fixed.from_num_lem x small in
      let (p, diff, rp) =
        fixed.fixed_sub_lem v taken (omega (arith, rt, fits)) (omega (arith, rt, top)) in
      rw (signs, ◌>>=◌, worth, ◌>>=◌, n, ◌>>=◌, diff) (refl, omega (arith, rp, rt), refl)

  abbrev move : ℕ → Origin → Move → State Fixed → Outcome ⊥ (Unit {0}) × State Fixed
  move now origin (deposit x) = deposit_continuous overflow_checks a frame block_bits now origin x
  move now origin (withdraw x) = withdraw_continuous overflow_checks a frame block_bits now origin x

  -- The outcomes of some calls in a block, and the state after them.
  unfoldable pub run :
      ℕ → Origin → List Move → State Fixed → List (Outcome ⊥ (Unit {0})) × State Fixed
  run now origin [] s = ([], s)
  run now origin (m ∷ moves) s =
      let (r, s') = move now origin m s in let (rs, s'') = run now origin moves s' in (r ∷ rs, s'')

  -- With fixed-point arithmetic that keeps its promises, in the block of the last change, and where
  -- less than 2^31 is put in and taken out in all, and the account can represent it: every deposit
  -- and every withdrawal by a signed origin returns ok, whether the account covers it or not, and
  -- the account comes to what was in it and was put in, less what was taken out, which can be less
  -- than nothing.
  pub run_lem :
      (moves : List Move) (now who : ℕ) (origin : Origin) (s : State Fixed)
      → s.continuous_account.deposit_date ≡ now
      → frame.ensure_signed origin ≡ some who
      → amount_in moves < 2 ^ 31
      → amount_out moves < 2 ^ 31
      → raw s.continuous_account.principal + amount_in moves * unit < 2 ^ 64
      → amount_out moves * unit ≤ raw s.continuous_account.principal
      → let (rs, s') = run now origin moves s in
        All (λ r. r ≡ ok tt) rs
        × (s'.continuous_account.deposit_date ≡ now)
        × (raw s'.continuous_account.principal + amount_out moves * unit
            ≡ raw s.continuous_account.principal + amount_in moves * unit)
  unfolding run
  run_lem [] now who origin s same signs small_in small_out above below = (tt, same, refl)
  run_lem (deposit x ∷ moves) now who origin s same signs small_in small_out above below =
      let s' = (move now origin (deposit x) s).1 in
      let v = s.continuous_account.principal in
      let (r, p, date) =
        deposited now x who origin s v signs (IsWorth-now now s same) (omega (arith, small_in))
          (omega (arith, above)) in
      let (rs, date', p') =
        run_lem moves now who origin s' date signs (omega (arith, small_in)) small_out
          (omega (arith, above, p)) (omega (arith, below, p)) in
      ((r, rs), date', omega (arith, p, p'))
  run_lem (withdraw x ∷ moves) now who origin s same signs small_in small_out above below =
      let s' = (move now origin (withdraw x) s).1 in
      let v = s.continuous_account.principal in
      let (r, p, date) =
        withdrawn now x who origin s v signs (IsWorth-now now s same) (omega (arith, small_out))
          (omega (arith, below)) (omega (arith, above)) in
      let (rs, date', p') =
        run_lem moves now who origin s' date signs small_in (omega (arith, small_out))
          (omega (arith, above, p)) (omega (arith, below, p)) in
      ((r, rs), date', omega (arith, p, p'))
