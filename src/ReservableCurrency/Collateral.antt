-- ===== src/ReservableCurrency/Collateral.antt =====
-- What is reserved, and where it goes.
use substrate_recipes.Prelude.{
  ℕ, ◌+◌, ◌-◌, ◌≤◌, ◌≡◌, refl, Bool, some, [], ◌∷◌, ◌++◌, min, arith, le→ltb,
}
use substrate_recipes.Frame.{Frame, ok, err, foreign, ◌>>=◌}
use substrate_recipes.Frame.Currency.{done, failed}
use substrate_recipes.Frame.Reservable.{Reservable, IsReservable}
use substrate_recipes.ReservableCurrency.{
  State, reserve_funds, unreserve_funds, unreserve_and_transfer, transfer_funds_event, lock_funds,
  unlock_funds,
}

module _ {Origin Bank : Type 0} (frame : Frame Origin) (c : Reservable Bank)
    (laws : IsReservable c) where
  reserve_done :
      (now : ℕ) (origin : Origin) (who amount : ℕ) (s : State Bank) (b : Bank)
      → frame.ensure_signed origin ≡ some who
      → c.reserve who amount s.bank ≡ done b
      → reserve_funds frame c now origin amount s
        ≡ (ok tt, record s { bank = b; events = s.events ++ (lock_funds who amount now ∷ []) })
  unfolding reserve_funds
  reserve_done now origin who amount s b e t = rw e (rw (t, ◌>>=◌) (rw t refl))

  unreserve_done :
      (now : ℕ) (origin : Origin) (who amount : ℕ) (s : State Bank)
      → frame.ensure_signed origin ≡ some who
      → unreserve_funds frame c now origin amount s ≡ (
        ok tt,
        record s {
          bank = (c.unreserve who amount s.bank).1;
          events = s.events ++ (unlock_funds who amount now ∷ []);
        },
      )
  unfolding unreserve_funds
  unreserve_done now origin who amount s e = rw e refl

  -- What is left of the collateral without the overdraft.
  covered_lem : (a x : ℕ) (b : Bank) → x - (c.unreserve a x b).0 ≡ min x (c.reserved_balance a b)
  covered_lem a x b = let (over, _, _, _) = laws.unreserve_lem a x b in omega (arith, over)

  overdraft-le : (a x : ℕ) (b : Bank) → (c.unreserve a x b).0 ≤ x
  overdraft-le a x b = let (over, _, _, _) = laws.unreserve_lem a x b in omega (arith, over)

  -- A signed caller who reserves an amount that the currency lets through and then unreserves it
  -- gets ok twice and has the free and the reserved balance of before.
  pub unreserve-reserve :
      (now : ℕ) (origin : Origin) (who amount : ℕ) (s : State Bank) (b : Bank)
      → frame.ensure_signed origin ≡ some who
      → c.reserve who amount s.bank ≡ done b
      → let (r, s1) = reserve_funds frame c now origin amount s in
        let (r', s2) = unreserve_funds frame c now origin amount s1 in
        (r ≡ ok tt)
        × (r' ≡ ok tt)
        × (c.currency.free_balance who s2.bank ≡ c.currency.free_balance who s.bank)
        × (c.reserved_balance who s2.bank ≡ c.reserved_balance who s.bank)
  unreserve-reserve now origin who amount s b e t =
      let (free1, held1, _) = laws.reserve_lem who amount s.bank b t in
      let (_, free2, held2, _) = laws.unreserve_lem who amount b in
      rw (reserve_done now origin who amount s b e t) (
        rw
          (unreserve_done now origin who amount
            (record s { bank = b; events = s.events ++ (lock_funds who amount now ∷ []) }) e)
          (
            refl,
            refl,
            omega (arith, free1, held1, free2, held2),
            omega (arith, free1, held1, free2, held2),
          ))

  -- Whoever signs, the amount that is taken from the punished account is the collateral, or all
  -- that it has reserved if that is less: where the currency lets the transfer of that amount
  -- through after it has been unreserved, the call returns ok, leaves the currency as the transfer
  -- does and reports the amount. This holds in builds with and without overflow checks.
  pub unreserve_and_transfer_lem :
      (bits : ℕ) (overflow_checks : Bool) (now : ℕ) (origin : Origin)
      (who to_punish dest collateral : ℕ) (s : State Bank) (b : Bank)
      → frame.ensure_signed origin ≡ some who
      → let held = c.reserved_balance to_punish s.bank in
        c.currency.transfer to_punish dest
            (min collateral held)
            (c.unreserve to_punish collateral s.bank).1
          ≡ done b
        → let (r, s') =
            unreserve_and_transfer frame c bits overflow_checks now origin to_punish dest collateral
              s in
          (r ≡ ok tt)
          × (s'.bank ≡ b)
          × (s'.events
              ≡ s.events ++ (transfer_funds_event to_punish dest (min collateral held) now ∷ []))
  unfolding unreserve_and_transfer
  unreserve_and_transfer_lem bits overflow_checks now origin who to_punish dest collateral s b e t =
      rw
        (
          e,
          le→ltb collateral (c.unreserve to_punish collateral s.bank).0
              (overdraft-le to_punish collateral s.bank),
          covered_lem to_punish collateral s.bank,
        )
        (rw (t, ◌>>=◌) (rw t (refl, refl, refl)))

  -- Where the currency refuses the transfer, a signed call returns that error and reports nothing,
  -- but the collateral, as far as it was reserved, has become free and stays so.
  pub failure_unreserves :
      (bits : ℕ) (overflow_checks : Bool) (now : ℕ) (origin : Origin)
      (who to_punish dest collateral e : ℕ) (s : State Bank)
      → frame.ensure_signed origin ≡ some who
      → let held = c.reserved_balance to_punish s.bank in
        c.currency.transfer to_punish dest
            (min collateral held)
            (c.unreserve to_punish collateral s.bank).1
          ≡ failed e
        → let (r, s') =
            unreserve_and_transfer frame c bits overflow_checks now origin to_punish dest collateral
              s in
          (r ≡ err (foreign e))
          × (c.currency.free_balance to_punish s'.bank
              ≡ c.currency.free_balance to_punish s.bank + min collateral held)
          × (c.reserved_balance to_punish s'.bank ≡ held - collateral)
          × (s'.events ≡ s.events)
  unfolding unreserve_and_transfer
  failure_unreserves bits overflow_checks now origin who to_punish dest collateral e s signed t =
      let (_, free, held, _) = laws.unreserve_lem to_punish collateral s.bank in
      rw
        (
          signed,
          le→ltb collateral (c.unreserve to_punish collateral s.bank).0
              (overdraft-le to_punish collateral s.bank),
          covered_lem to_punish collateral s.bank,
        )
        (rw (t, ◌>>=◌) (rw t (refl, free, held, refl)))
