-- ===== src/LockableCurrency.antt =====
-- The lockable-currency demo (pallets/lockable-currency/src/lib.rs): an account sets, extends and
-- removes one lock on its balance.
pub mod Locks
mod Tests
use substrate_recipes.Prelude.{ℕ, List, [], ◌∷◌, ◌++◌, ◌≡◌, ◌≢◌, ◌⊎◌}
use substrate_recipes.Frame.{Frame, Call, signed, modify, ◌>>=◌, ◌>>◌}
use Prim.Native.String.{String}

-- `EXAMPLE_ID`
abbrev pub example_id : String
example_id = "example "

pub data Event : Type 0 where
  locked extended_lock : ℕ → ℕ → Event
  unlocked : ℕ → Event

-- `LockableCurrency` of the runtime over its storage: the calls that the pallet makes, each for all
-- reasons to withdraw, and the amount that is under a lock (zero where there is none).
pub record Lockable (Bank : Type 0) : Type 0 where
  pub locked_under : String → ℕ → Bank → ℕ
  pub set_lock : String → ℕ → ℕ → Bank → Bank
  pub extend_lock : String → ℕ → ℕ → Bank → Bank
  pub remove_lock : String → ℕ → Bank → Bank

-- The storage of the currency, and the events deposited so far.
pub record State (Bank : Type 0) : Type 0 where
  pub bank : Bank
  pub events : List Event

module _ {Origin Bank : Type 0} (frame : Frame Origin) (currency : Lockable Bank) where
  abbrev update_bank : (Bank → Bank) → State Bank → State Bank
  update_bank f s = record s { bank = f s.bank }

  abbrev deposit_event : Event → State Bank → State Bank
  deposit_event e s = record s { events = s.events ++ (e ∷ []) }

  pub lock_capital : Origin → ℕ → Call (State Bank) ⊥ (Unit {0})
  lock_capital origin amount = do
    user ← signed frame origin
    modify (update_bank (currency.set_lock example_id user amount))
    modify (deposit_event (locked user amount))

  pub extend_lock : Origin → ℕ → Call (State Bank) ⊥ (Unit {0})
  extend_lock origin amount = do
    user ← signed frame origin
    modify (update_bank (currency.extend_lock example_id user amount))
    modify (deposit_event (extended_lock user amount))

  pub unlock_all : Origin → Call (State Bank) ⊥ (Unit {0})
  unlock_all origin = do
    user ← signed frame origin
    modify (update_bank (currency.remove_lock example_id user))
    modify (deposit_event (unlocked user))
