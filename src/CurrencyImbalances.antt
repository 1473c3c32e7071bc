-- ===== src/CurrencyImbalances.antt =====
-- The imbalances demo (pallets/currency-imbalances/src/lib.rs): slashing what an account has reserved,
-- and minting a reward.
pub mod Reports
mod Tests
use substrate_recipes.Prelude.{ℕ, ◌+◌, Option, none, some, List, [], ◌∷◌, ◌++◌}
use substrate_recipes.Frame.{Frame, Call, ok, signed, modify, ◌>>=◌, ◌>>◌}
use substrate_recipes.Frame.Currency.{Attempt, done, failed}

pub data Event : Type 0 where
  slash_funds_event reward_funds_event : ℕ → ℕ → ℕ → Event

-- What the pallet calls of the runtime's currency over its storage: `slash_reserved`, whose result is
-- the imbalance and what was not there to slash, `deposit_into_existing`, and the two handlers of an
-- imbalance. An imbalance is the amount that it stands for.
pub record Imbalances (Bank : Type 0) : Type 0 where
  pub slash_reserved : ℕ → ℕ → Bank → (ℕ × ℕ) × Bank
  pub deposit_into_existing : ℕ → ℕ → Bank → Attempt (ℕ × Bank)
  pub on_slash : ℕ → Bank → Bank
  pub on_reward : ℕ → Bank → Bank

-- The storage of the currency, and the events deposited so far.
pub record State (Bank : Type 0) : Type 0 where
  pub bank : Bank
  pub events : List Event

-- `maybe_subsume`
abbrev maybe_subsume : ℕ → Option ℕ → ℕ
maybe_subsume imbalance none = imbalance
maybe_subsume imbalance (some more) = imbalance + more

module _ {Origin Bank : Type 0} (frame : Frame Origin) (currency : Imbalances Bank) where
  abbrev deposit_event : Event → State Bank → State Bank
  deposit_event e s = record s { events = s.events ++ (e ∷ []) }

  abbrev slash : ℕ → ℕ → Call (State Bank) ⊥ ℕ
  slash who amount s =
      let ((imbalance, rest), b) = currency.slash_reserved who amount s.bank in
      (ok imbalance, record s { bank = b })

  -- `.ok()` on the result.
  abbrev minted : Attempt (ℕ × Bank) → Call (State Bank) ⊥ (Option ℕ)
  minted (done (imbalance, b)) s = (ok (some imbalance), record s { bank = b })
  minted (failed e) s = (ok none, s)

  pub slash_funds : ℕ → Origin → ℕ → ℕ → Call (State Bank) ⊥ (Unit {0})
  slash_funds now origin to_punish collateral = do
    who ← signed frame origin
    imbalance ← slash to_punish collateral
    modify λ s. record s { bank = currency.on_slash imbalance s.bank }
    modify (deposit_event (slash_funds_event to_punish collateral now))

  pub reward_funds : ℕ → Origin → ℕ → ℕ → Call (State Bank) ⊥ (Unit {0})
  reward_funds now origin to_reward reward = do
    who ← signed frame origin
    let total_imbalance : ℕ = 0
    r ← λ s. minted (currency.deposit_into_existing to_reward reward s.bank) s
    let total_imbalance' = maybe_subsume total_imbalance r
    modify λ s. record s { bank = currency.on_reward total_imbalance' s.bank }
    modify (deposit_event (reward_funds_event to_reward reward now))
