-- ===== src/Charity.antt =====
-- The charity pallet (pallets/charity/src/lib.rs): a pot to which anyone can give, and from which only
-- root can allocate.
pub mod Pot
mod Tests
use substrate_recipes.Prelude.{ℕ, Bool, List, [], ◌∷◌, ◌++◌, ◌==◌, if◌then◌else◌}
use substrate_recipes.Frame.{
  Frame, DispatchError, Outcome, Call, ok, err, signed, root, gets, modify, other, ◌>>=◌, ◌>>◌,
}
use substrate_recipes.Frame.Currency.{Attempt, done, failed, Currency}

pub data Event : Type 0 where
  donation_received : ℕ → ℕ → ℕ → Event
  imbalance_absorbed : ℕ → ℕ → Event
  funds_allocated : ℕ → ℕ → ℕ → Event

-- The pallet has no storage of its own: the storage of the currency, and the events so far.
pub record State (Bank : Type 0) : Type 0 where
  pub bank : Bank
  pub events : List Event

module _ {Bank : Type 0} where
  abbrev deposit_event : Event → State Bank → State Bank
  deposit_event e s = record s { events = s.events ++ (e ∷ []) }

  -- `.map_err(|_| DispatchError::Other(…))?` on a transfer.
  abbrev paid_or : DispatchError ⊥ → Attempt Bank → Call (State Bank) ⊥ (Unit {0})
  paid_or e (done b) s = (ok tt, record s { bank = b })
  paid_or e (failed x) s = (err e, s)

-- `account_id` is what `PALLET_ID.into_account()` yields.
module _ {Bank : Type 0} (account_id : ℕ) (currency : Currency Bank) where
  abbrev pub pot : State Bank → ℕ
  pot s = currency.free_balance account_id s.bank

  -- `GenesisBuild::build`, given the currency's `make_free_balance_be`, whose result is dropped.
  unfoldable pub build : (ℕ → ℕ → Bank → Bank) → Bank → Bank
  build make_free_balance_be bank = make_free_balance_be account_id currency.minimum_balance bank

  -- `OnUnbalanced::on_nonzero_unbalanced`
  pub on_nonzero_unbalanced : ℕ → State Bank → State Bank
  on_nonzero_unbalanced amount s =
      let s' : State Bank = record s {
        bank = currency.resolve_creating account_id amount s.bank;
      } in
      deposit_event (imbalance_absorbed amount (pot s')) s'

  module _ {Origin : Type 0} (frame : Frame Origin) where
    pub donate : Origin → ℕ → Call (State Bank) ⊥ (Unit {0})
    donate origin amount = do
      donor ← signed frame origin
      λ s.
          paid_or (other "Can't make donation") (currency.transfer donor account_id amount s.bank) s
      modify λ s. deposit_event (donation_received donor amount (pot s)) s

    pub allocate : Origin → ℕ → ℕ → Call (State Bank) ⊥ (Unit {0})
    allocate origin dest amount = do
      root frame origin
      λ s.
          paid_or (other "Can't make allocation") (currency.transfer account_id dest amount s.bank)
            s
      modify λ s. deposit_event (funds_allocated dest amount (pot s)) s
