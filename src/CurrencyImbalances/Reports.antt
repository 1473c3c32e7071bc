-- ===== src/CurrencyImbalances/Reports.antt =====
-- What the events say against what was slashed or minted.
use substrate_recipes.Prelude.{ℕ, ◌-◌, ◌≡◌, refl, ◌∙◌, some, [], ◌∷◌, ◌++◌, min}
use substrate_recipes.Frame.{Frame, ok, ◌>>=◌}
use substrate_recipes.Frame.Currency.{failed}
use substrate_recipes.CurrencyImbalances.{
  State, Imbalances, slash_funds, reward_funds, slash_funds_event, reward_funds_event,
}

-- What the traits document. `slash_reserved` takes as much of the amount as is reserved and gives back
-- the rest; a deposit into an account that is there adds the amount; a handler of nothing does nothing,
-- and no handler touches what an account has reserved.
pub record IsImbalances {Bank : Type 0} (c : Imbalances Bank) (reserved : ℕ → Bank → ℕ)
    : Type 0 where
  pub slash_reserved_lem :
      (who amount : ℕ) (b : Bank)
      → let ((imbalance, rest), b') = c.slash_reserved who amount b in
        (imbalance ≡ min amount (reserved who b))
        × (rest ≡ amount - reserved who b)
        × (reserved who b' ≡ reserved who b - amount)
  pub on_slash_reserved :
      (imbalance j : ℕ) (b : Bank) → reserved j (c.on_slash imbalance b) ≡ reserved j b
  pub on_reward_zero : (b : Bank) → c.on_reward 0 b ≡ b

module _ {Origin Bank : Type 0} (c : Imbalances Bank) (reserved : ℕ → Bank → ℕ)
    (law : IsImbalances c reserved) (frame : Frame Origin) where
  -- Any signed origin slashes any account: the call returns ok, the account keeps what it had reserved
  -- beyond the collateral, and the event reports the whole collateral, however little was reserved.
  pub slash_funds_lem :
      (now : ℕ) (origin : Origin) (who to_punish collateral : ℕ) (s : State Bank)
      → frame.ensure_signed origin ≡ some who
      → let (r, s') = slash_funds frame c now origin to_punish collateral s in
        (r ≡ ok tt)
        × (reserved to_punish s'.bank ≡ reserved to_punish s.bank - collateral)
        × (s'.events ≡ s.events ++ (slash_funds_event to_punish collateral now ∷ []))
  unfolding slash_funds
  slash_funds_lem now origin who to_punish collateral s e =
      let ((imbalance, rest), b') = c.slash_reserved to_punish collateral s.bank in
      let (_, _, kept) = law.slash_reserved_lem to_punish collateral s.bank in
      rw e (refl, law.on_slash_reserved imbalance to_punish b' ∙ kept, refl)

  -- A reward by a signed origin to an account that the currency does not pay returns ok and reports
  -- the whole reward, though the currency is as before, where a handler of nothing does nothing.
  pub unpaid-reward_funds :
      (now : ℕ) (origin : Origin) (who to_reward reward error : ℕ) (s : State Bank)
      → frame.ensure_signed origin ≡ some who
      → c.deposit_into_existing to_reward reward s.bank ≡ failed error
      → reward_funds frame c now origin to_reward reward s
        ≡ (ok tt, record s { events = s.events ++ (reward_funds_event to_reward reward now ∷ []) })
  unfolding reward_funds
  unpaid-reward_funds now origin who to_reward reward error s e f =
      rw e (rw (f, ◌>>=◌) (rw f (rw (law.on_reward_zero s.bank) refl)))
