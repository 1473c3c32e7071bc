-- ===== src/Frame/Currency.antt =====
-- What the pallets ask of the `Currency` trait of `frame_support`, which the runtime provides:
-- its operations over the currency's own storage `Bank`, and the documented effect of each.
use substrate_recipes.Prelude.{ℕ, ◌+◌, ◌≤◌, ◌<◌, ◌≡◌, ◌≢◌, refl, ◌⊎◌, inl, inr}

-- The result of an operation that can fail: an error value that no pallet looks into.
pub data Attempt (A : Type 0) : Type 0 where
  done : A → Attempt A
  failed : ℕ → Attempt A

-- An imbalance is the amount that it stands for. Both `resolve` operations give the state after a
-- result that the caller drops. `balance_limit` is one more than the greatest balance.
pub record Currency (Bank : Type 0) : Type 0 where
  pub balance_limit : ℕ
  pub minimum_balance : ℕ
  pub total_issuance : Bank → ℕ
  pub free_balance : ℕ → Bank → ℕ
  pub transfer : ℕ → ℕ → ℕ → Bank → Attempt Bank
  pub withdraw : ℕ → ℕ → Bank → Attempt (ℕ × Bank)
  pub resolve_creating : ℕ → ℕ → Bank → Bank
  pub resolve_into_existing : ℕ → ℕ → Bank → Bank

-- The operations under `AllowDeath`: an account that is left with less than the minimum balance is
-- removed and its rest is lost, and an account that is not there is created by no less. The balances
-- add up to the issuance, so none is above it.
pub record IsCurrency {Bank : Type 0} (c : Currency Bank) : Type 0 where
  pub free_balance-le : (a : ℕ) (b : Bank) → c.free_balance a b ≤ c.total_issuance b
  pub transfer_lem :
      (a z x : ℕ) (b b' : Bank)
      → a ≢ z
      → c.transfer a z x b ≡ done b'
      → (c.free_balance z b' ≡ c.free_balance z b + x)
        × ((j : ℕ) → j ≢ a → j ≢ z → c.free_balance j b' ≡ c.free_balance j b)
        × (c.total_issuance b' ≤ c.total_issuance b)
  pub withdraw_lem :
      (a x imbalance : ℕ) (b b' : Bank)
      → c.withdraw a x b ≡ done (imbalance, b')
      → (imbalance ≡ x)
        × (c.total_issuance b' + x ≤ c.total_issuance b)
        × (c.minimum_balance + x ≤ c.free_balance a b
            → c.free_balance a b' + x ≡ c.free_balance a b)
        × ((j : ℕ) → j ≢ a → c.free_balance j b' ≡ c.free_balance j b)
  pub resolve_creating_lem :
      (a x : ℕ) (b : Bank)
      → c.total_issuance b + x < c.balance_limit
      → (c.minimum_balance ≤ c.free_balance a b + x
          → c.free_balance a (c.resolve_creating a x b) ≡ c.free_balance a b + x)
        × ((j : ℕ) → j ≢ a → c.free_balance j (c.resolve_creating a x b) ≡ c.free_balance j b)
        × (c.total_issuance (c.resolve_creating a x b) ≤ c.total_issuance b + x)
  pub resolve_into_existing_lem :
      (a x : ℕ) (b : Bank)
      → c.total_issuance b + x < c.balance_limit
      → (c.minimum_balance ≤ c.free_balance a b
          → c.free_balance a (c.resolve_into_existing a x b) ≡ c.free_balance a b + x)
        × ((j : ℕ) → j ≢ a → c.free_balance j (c.resolve_into_existing a x b) ≡ c.free_balance j b)
        × (c.total_issuance (c.resolve_into_existing a x b) ≤ c.total_issuance b + x)

-- To split on the result of an operation and keep the equation.
pub Attempt-cases :
    {A : Type 0} (r : Attempt A) → ((e : ℕ) × (r ≡ failed e)) ⊎ ((a : A) × (r ≡ done a))
Attempt-cases (done a) = inr (a, refl)
Attempt-cases (failed e) = inl (e, refl)
