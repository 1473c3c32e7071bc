-- ===== src/Weights.antt =====
-- The weights pallet (pallets/weights/src/lib.rs): three scales that weigh calls by their arguments,
-- and the calls they are meant for.
pub mod Scales
pub mod Loops
use substrate_recipes.Prelude.{
  ℕ, zero, suc, Bool, true, false, Option, none, some, ◌==◌, if◌then◌else◌,
}
use substrate_recipes.Prelude.Words.{saturating_add, saturating_mul, plain_add}
use substrate_recipes.Frame.{
  Call, Outcome, ok, panic, gets, ensure, modify, expect, other, ◌>>=◌, ◌>>◌, pure,
}

-- `Linear`, `Quadratic` and `Conditional` with their fields, and `weigh_data` of each.
pub data Linear : Type 0 where
  linear : ℕ → Linear

pub data Quadratic : Type 0 where
  quadratic : ℕ → ℕ → ℕ → Quadratic

pub data Conditional : Type 0 where
  conditional : ℕ → Conditional

pub weigh_linear : Linear → ℕ → ℕ
weigh_linear (linear m) x = saturating_mul 32 x m

pub weigh_quadratic : Quadratic → ℕ → ℕ → ℕ
weigh_quadratic (quadratic a b c) x y =
    let ax2 = saturating_mul 32 (saturating_mul 32 x x) a in
    let by = saturating_mul 32 y b in saturating_add 32 (saturating_add 32 ax2 by) c

pub weigh_conditional : Conditional → Bool → ℕ → ℕ
weigh_conditional (conditional m) switch val = if switch then saturating_mul 32 val m else m

-- `StoredValue`
pub record State : Type 0 where
  pub stored_value : ℕ

abbrev put : ℕ → State → State
put v s = record s { stored_value = v }

-- `StoredValue::put(StoredValue::get() + 1)`
abbrev bump : Bool → Call State ⊥ (Unit {0})
bump overflow_checks = do
  old ← gets (λ s. s.stored_value)
  new ← expect (plain_add 32 overflow_checks old 1)
  modify (put new)

-- A loop of `n` rounds.
pub times : ℕ → Call State ⊥ (Unit {0}) → Call State ⊥ (Unit {0})
times zero body = pure tt
times (suc n) body = do body; times n body

-- `part1 += 2`, `n` times.
pub add_twos : Bool → ℕ → ℕ → Option ℕ
add_twos overflow_checks zero part1 = some part1
add_twos overflow_checks (suc n) part1 = elim (plain_add 32 overflow_checks part1 2) [
  | none ↦ none
  | some p ↦ add_twos overflow_checks n p
]

pub store_value : ℕ → Call State ⊥ (Unit {0})
store_value entry = modify (put entry)

pub add_n : Bool → ℕ → Call State ⊥ (Unit {0})
add_n overflow_checks n = times n (bump overflow_checks)

pub double : Bool → ℕ → Call State ⊥ (Unit {0})
double overflow_checks initial_value = do
  initial ← gets (λ s. s.stored_value)
  ensure (initial == initial_value) (other "Storage value did not match parameter")
  times initial (bump overflow_checks)

pub complex_calculations : Bool → ℕ → ℕ → Call State ⊥ (Unit {0})
complex_calculations overflow_checks x y = do
  part1 ← expect (add_twos overflow_checks y 0)
  times x (times x (bump overflow_checks))
  modify (put part1)

pub add_or_set : Bool → ℕ → Call State ⊥ (Unit {0})
add_or_set add_flag val =
    if add_flag then times val (modify (λ s. put s.stored_value s)) else modify (put val)
