-- ===== src/Frame/Reservable.antt =====
-- What the pallets ask of the `ReservableCurrency` trait of `frame_support`: a currency in which an
-- account can set a part of its balance aside.
use substrate_recipes.Prelude.{ℕ, ◌+◌, ◌-◌, ◌≡◌, ◌≢◌, min}
use substrate_recipes.Frame.Currency.{Attempt, done, Currency}

-- `unreserve` gives the part of the amount that was not reserved, and the state after it.
pub record Reservable (Bank : Type 0) : Type 0 where
  pub currency : Currency Bank
  pub reserved_balance : ℕ → Bank → ℕ
  pub reserve : ℕ → ℕ → Bank → Attempt Bank
  pub unreserve : ℕ → ℕ → Bank → ℕ × Bank

-- A reservation that succeeds moves the amount from the free to the reserved balance; `unreserve`
-- moves as much of the amount back as is reserved.
pub record IsReservable {Bank : Type 0} (c : Reservable Bank) : Type 0 where
  pub reserve_lem :
      (a x : ℕ) (b b' : Bank)
      → c.reserve a x b ≡ done b'
      → (c.currency.free_balance a b' + x ≡ c.currency.free_balance a b)
        × (c.reserved_balance a b' ≡ c.reserved_balance a b + x)
        × ((j : ℕ)
            → j ≢ a
            → (c.currency.free_balance j b' ≡ c.currency.free_balance j b)
              × (c.reserved_balance j b' ≡ c.reserved_balance j b))
  pub unreserve_lem :
      (a x : ℕ) (b : Bank)
      → let (overdraft, b') = c.unreserve a x b in
        (overdraft ≡ x - c.reserved_balance a b)
        × (c.currency.free_balance a b'
            ≡ c.currency.free_balance a b + min x (c.reserved_balance a b))
        × (c.reserved_balance a b' ≡ c.reserved_balance a b - x)
        × ((j : ℕ)
            → j ≢ a
            → (c.currency.free_balance j b' ≡ c.currency.free_balance j b)
              × (c.reserved_balance j b' ≡ c.reserved_balance j b))
