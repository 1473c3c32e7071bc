-- ===== src/CurrencyImbalances/Tests.antt =====
-- A currency where an account has a reserved balance and nothing else, and no account can be paid.
use substrate_recipes.Prelude.{ℕ, ◌-◌, ◌≡◌, refl, [], arith, ◌==◌, if◌then◌else◌, min}
use substrate_recipes.Frame.Currency.{failed}
use substrate_recipes.CurrencyImbalances.{State, Imbalances}
use substrate_recipes.CurrencyImbalances.Reports.{IsImbalances}

abbrev slashed : ℕ → ℕ → (ℕ → ℕ) → ℕ → ℕ
slashed who amount b j = if j == who then b who - amount else b j

abbrev currency : Imbalances (ℕ → ℕ)
currency = record {
  slash_reserved = λ who amount b. ((min amount (b who), amount - b who), slashed who amount b);
  deposit_into_existing = λ who amount b. failed 3;
  on_slash = λ imbalance b. b;
  on_reward = λ imbalance b. b;
}

slashed_own : (who amount : ℕ) (b : ℕ → ℕ) → slashed who amount b who ≡ b who - amount
slashed_own who amount b = ground arith

currency-IsImbalances : IsImbalances currency (λ j b. b j)
currency-IsImbalances = record {
  slash_reserved_lem = λ who amount b. (refl, refl, slashed_own who amount b);
  on_slash_reserved = λ imbalance j b. refl;
  on_reward_zero = λ b. refl;
}

abbrev genesis : State (ℕ → ℕ)
genesis = record { bank = λ j. 7; events = [] }
