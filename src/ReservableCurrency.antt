-- ===== src/ReservableCurrency.antt =====
-- The reservable-currency pallet (pallets/reservable-currency/src/lib.rs): calls around a currency in
-- which balances can be reserved.
pub mod Collateral
mod Tests
use substrate_recipes.Prelude.{ℕ, Bool, List, [], ◌∷◌, ◌++◌}
use substrate_recipes.Prelude.Words.{plain_sub}
use substrate_recipes.Frame.{
  Frame, DispatchError, Outcome, Call, ok, err, signed, expect, modify, other, foreign, ◌>>=◌, ◌>>◌,
}
use substrate_recipes.Frame.Currency.{Attempt, done, failed, Currency}
use substrate_recipes.Frame.Reservable.{Reservable}

pub data Event : Type 0 where
  lock_funds unlock_funds : ℕ → ℕ → ℕ → Event
  transfer_funds_event : ℕ → ℕ → ℕ → ℕ → Event

-- The storage of the currency, and the events deposited so far.
pub record State (Bank : Type 0) : Type 0 where
  pub bank : Bank
  pub events : List Event

module _ {Bank : Type 0} where
  abbrev deposit_event : Event → State Bank → State Bank
  deposit_event e s = record s { events = s.events ++ (e ∷ []) }

  abbrev put_bank : Bank → State Bank → State Bank
  put_bank b s = record s { bank = b }

  -- `?` on a result of the currency.
  abbrev paid : Attempt Bank → Call (State Bank) ⊥ (Unit {0})
  paid (done b) s = (ok tt, put_bank b s)
  paid (failed e) s = (err (foreign e), s)

  -- `.map_err(|_| …)?` on a result of the currency.
  abbrev paid_or : DispatchError ⊥ → Attempt Bank → Call (State Bank) ⊥ (Unit {0})
  paid_or e (done b) s = (ok tt, put_bank b s)
  paid_or e (failed x) s = (err e, s)

module _ {Origin Bank : Type 0} (frame : Frame Origin) (currency : Reservable Bank) where
  -- The amount that was not reserved, with the currency after the call.
  abbrev unreserved : ℕ → ℕ → Call (State Bank) ⊥ ℕ
  unreserved who amount s =
      let (overdraft, b) = currency.unreserve who amount s.bank in (ok overdraft, put_bank b s)

  abbrev transfer_to : ℕ → ℕ → ℕ → Call (State Bank) ⊥ (Unit {0})
  transfer_to source dest amount s = paid (currency.currency.transfer source dest amount s.bank) s

  pub reserve_funds : ℕ → Origin → ℕ → Call (State Bank) ⊥ (Unit {0})
  reserve_funds now origin amount = do
    locker ← signed frame origin
    λ s.
        paid_or (other "locker can't afford to lock the amount requested")
          (currency.reserve locker amount s.bank) s
    modify (deposit_event (lock_funds locker amount now))

  pub unreserve_funds : ℕ → Origin → ℕ → Call (State Bank) ⊥ (Unit {0})
  unreserve_funds now origin amount = do
    unlocker ← signed frame origin
    unreserved unlocker amount
    modify (deposit_event (unlock_funds unlocker amount now))

  pub transfer_funds : ℕ → Origin → ℕ → ℕ → Call (State Bank) ⊥ (Unit {0})
  transfer_funds now origin dest amount = do
    sender ← signed frame origin
    transfer_to sender dest amount
    modify (deposit_event (transfer_funds_event sender dest amount now))

  -- `bits` is the width of a balance. The difference is computed twice in the source, from the same
  -- two values.
  pub unreserve_and_transfer : ℕ → Bool → ℕ → Origin → ℕ → ℕ → ℕ → Call (State Bank) ⊥ (Unit {0})
  unreserve_and_transfer bits overflow_checks now origin to_punish dest collateral = do
    signed frame origin
    overdraft ← unreserved to_punish collateral
    amount ← expect (plain_sub bits overflow_checks collateral overdraft)
    transfer_to to_punish dest amount
    modify (deposit_event (transfer_funds_event to_punish dest amount now))
