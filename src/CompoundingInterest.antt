-- ===== src/CompoundingInterest.antt =====
-- The compounding-interest pallet (pallets/compounding-interest/src/lib.rs): an account whose interest
-- is applied every ten blocks, and one whose interest accrues continuously.
pub mod Discrete
pub mod Continuous
mod Tests
use substrate_recipes.Prelude.{
  ℕ, ◌+◌, ◌*◌, ◌^◌, ◌%◌, Bool, Option, none, some, List, [], ◌∷◌, ◌++◌, ltb, ◌==◌, if◌then◌else◌,
}
use substrate_recipes.Prelude.Words.{plain_add, plain_sub, plain_mul}
use substrate_recipes.Frame.{
  Frame, Outcome, Call, ok, err, panic, signed, gets, expect, modify, pure, ◌>>=◌, ◌>>◌,
}

pub data Event : Type 0 where
  deposited_continuous withdrew_continuous : ℕ → Event
  deposited_discrete withdrew_discrete : ℕ → Event
  discrete_interest_applied : ℕ → Event

-- `ContinuousAccountData`, with the principal in the type `Fixed` of `I32F32`.
pub record ContinuousAccountData (Fixed : Type 0) : Type 0 where
  pub principal : Fixed
  pub deposit_date : ℕ

pub record State (Fixed : Type 0) : Type 0 where
  pub continuous_account : ContinuousAccountData Fixed
  pub discrete_account : ℕ
  pub events : List Event

-- The arithmetic of other crates: `Percent * u64`, and of `I32F32` the conversion, the operators, and
-- `exp`. `none` is a panic, or the error of `exp`.
pub record Arithmetic (Fixed : Type 0) : Type 0 where
  pub percent_mul : ℕ → ℕ → ℕ
  pub from_num : ℕ → Option Fixed
  pub fixed_add : Fixed → Fixed → Option Fixed
  pub fixed_sub : Fixed → Fixed → Option Fixed
  pub fixed_mul : Fixed → Fixed → Option Fixed
  pub fixed_div : Fixed → ℕ → Option Fixed
  pub exp : Fixed → Option Fixed

module _ {Fixed : Type 0} where
  abbrev deposit_event : Event → State Fixed → State Fixed
  deposit_event e s = record s { events = s.events ++ (e ∷ []) }

  abbrev put_discrete : ℕ → State Fixed → State Fixed
  put_discrete v s = record s { discrete_account = v }

  abbrev put_continuous : Fixed → ℕ → State Fixed → State Fixed
  put_continuous v date s = record s {
    continuous_account = record { principal = v; deposit_date = date };
  }

-- `block_bits` is the width of a block number.
module _ {Fixed : Type 0} (overflow_checks : Bool) (a : Arithmetic Fixed) where
  -- `discrete_interest_rate()` is five percent.
  abbrev pub discrete_interest : ℕ → ℕ
  discrete_interest balance = a.percent_mul 5 balance

  pub apply_interest : Call (State Fixed) ⊥ (Unit {0})
  apply_interest = do
    balance ← gets (λ s. s.discrete_account)
    interest ← expect (plain_mul 64 overflow_checks (discrete_interest balance) 10)
    old_balance ← gets (λ s. s.discrete_account)
    new_balance ← expect (plain_add 64 overflow_checks old_balance interest)
    modify (put_discrete new_balance)
    modify (deposit_event (discrete_interest_applied interest))

  unfoldable pub on_finalize : ℕ → Call (State Fixed) ⊥ (Unit {0})
  unfolding apply_interest
  on_finalize n s = if n % 10 == 0 then apply_interest s else (ok tt, s)

  pub continuous_interest_rate : Option Fixed
  continuous_interest_rate = elim (a.from_num 1) [ none ↦ none | some one ↦ a.fixed_div one 20 ]

  -- The elapsed blocks must be a `u32`.
  pub value_of_continuous_account : ℕ → ℕ → Call (State Fixed) ⊥ Fixed
  value_of_continuous_account block_bits now = do
    account ← gets (λ s. s.continuous_account)
    elapsed ← expect (plain_sub block_bits overflow_checks now account.deposit_date)
    elapsed_u32 ← expect (if ltb elapsed (2 ^ 32) then some elapsed else none)
    time ← expect (a.from_num elapsed_u32)
    rate ← expect continuous_interest_rate
    exponent ← expect (a.fixed_mul rate time)
    growth ← expect (a.exp exponent)
    expect (a.fixed_mul account.principal growth)

  module _ {Origin : Type 0} (frame : Frame Origin) where
    pub deposit_continuous : ℕ → ℕ → Origin → ℕ → Call (State Fixed) ⊥ (Unit {0})
    deposit_continuous block_bits current_block origin val_to_add = do
      signed frame origin
      old_value ← value_of_continuous_account block_bits current_block
      added ← expect (a.from_num val_to_add)
      principal ← expect (a.fixed_add old_value added)
      modify (put_continuous principal current_block)
      modify (deposit_event (deposited_continuous val_to_add))

    pub withdraw_continuous : ℕ → ℕ → Origin → ℕ → Call (State Fixed) ⊥ (Unit {0})
    withdraw_continuous block_bits current_block origin val_to_take = do
      signed frame origin
      old_value ← value_of_continuous_account block_bits current_block
      taken ← expect (a.from_num val_to_take)
      principal ← expect (a.fixed_sub old_value taken)
      modify (put_continuous principal current_block)
      modify (deposit_event (withdrew_continuous val_to_take))

module _ {Fixed Origin : Type 0} (overflow_checks : Bool) (frame : Frame Origin) where
  pub deposit_discrete : Origin → ℕ → Call (State Fixed) ⊥ (Unit {0})
  deposit_discrete origin val_to_add = do
    signed frame origin
    old_value ← gets (λ s. s.discrete_account)
    new_value ← expect (plain_add 64 overflow_checks old_value val_to_add)
    modify (put_discrete new_value)
    modify (deposit_event (deposited_discrete val_to_add))

  pub withdraw_discrete : Origin → ℕ → Call (State Fixed) ⊥ (Unit {0})
  withdraw_discrete origin val_to_take = do
    signed frame origin
    old_value ← gets (λ s. s.discrete_account)
    new_value ← expect (plain_sub 64 overflow_checks old_value val_to_take)
    modify (put_discrete new_value)
    modify (deposit_event (withdrew_discrete val_to_take))
