-- ===== src/Crowdfund/Runtime.antt =====
-- What the crowdfund pallet relies on in the runtime around it, and what follows for the accounts
-- of the pots and the identifiers of the child tries.
use substrate_recipes.Prelude.{ℕ, ◌^◌, ◌≤◌, ◌<◌, ◌≡◌, ◌≢◌, arith}
use substrate_recipes.Frame.Currency.{done, Currency, IsCurrency}
use substrate_recipes.Crowdfund.{Config, to_le_bytes, fund_account_id, id_from_index}

-- The sub-accounts of two indices differ, and so do the hashes of their buffers; the deposit keeps
-- a pot alive; `balance_bits` is the width of a balance; and nothing locks the funds of a pot.
pub record IsRuntime {Bank : Type 0} (config : Config) (c : Currency Bank) : Type 0 where
  pub currency_laws : IsCurrency c
  pub sub_accounts_differ :
      (i j : ℕ)
      → i < 2 ^ 32
      → j < 2 ^ 32
      → config.into_sub_account i ≡ config.into_sub_account j
      → i ≡ j
  pub no_collision :
      (i j : ℕ)
      → i < 2 ^ 32
      → j < 2 ^ 32
      → id_from_index config i ≡ id_from_index config j
      → to_le_bytes i ≡ to_le_bytes j
  pub deposit_covers : c.minimum_balance ≤ config.submission_deposit
  pub balance_width : c.balance_limit ≡ 2 ^ config.balance_bits
  pub pot_withdraws :
      (i x : ℕ) (b : Bank)
      → x ≤ c.free_balance (fund_account_id config i) b
      → (r : ℕ × Bank) × (c.withdraw (fund_account_id config i) x b ≡ done r)

-- Four bytes determine a `u32`.
pub to_le_bytes_inj : (i j : ℕ) → i < 2 ^ 32 → j < 2 ^ 32 → to_le_bytes i ≡ to_le_bytes j → i ≡ j
to_le_bytes_inj i j hi hj e = ground arith

module _ {Bank : Type 0} {config : Config} {c : Currency Bank} (runtime : IsRuntime config c) where
  pub pots_differ :
      (i j : ℕ)
      → i < 2 ^ 32
      → j < 2 ^ 32
      → i ≢ j
      → fund_account_id config i ≢ fund_account_id config j
  unfolding fund_account_id
  pots_differ i j hi hj ne e = ne (runtime.sub_accounts_differ i j hi hj e)

  pub tries_differ :
      (i j : ℕ) → i < 2 ^ 32 → j < 2 ^ 32 → i ≢ j → id_from_index config i ≢ id_from_index config j
  tries_differ i j hi hj ne e = ne (to_le_bytes_inj i j hi hj (runtime.no_collision i j hi hj e))
