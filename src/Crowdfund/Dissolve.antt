-- ===== src/Crowdfund/Dissolve.antt =====
-- `dissolve` of a retired fund: it goes through, and the caller gets all that was in the fund.
use substrate_recipes.Prelude.{
  ℕ, ◌+◌, ◌^◌, ◌≤◌, ◌<◌, ◌≡◌, ◌≢◌, refl, [], ◌∷◌, ◌++◌, none, some, arith, lt→ltb, leb, true,
}
use substrate_recipes.Frame.{Frame, ok, ◌>>=◌}
use substrate_recipes.Frame.Storage.{remove}
use substrate_recipes.Frame.Currency.{done, Currency}
use substrate_recipes.Crowdfund.{
  Config, State, FundInfo, fund_account_id, id_from_index, dissolve, dissolved as dissolved_event,
  crowdfund_kill,
}
use substrate_recipes.Crowdfund.Runtime.{IsRuntime}
use substrate_recipes.Crowdfund.Sound.{IsSound, Touches-IsSound}
use substrate_recipes.Crowdfund.Close.{closed-Touches, paid_out_keeps, paid_out_issued}

module _ {Bank : Type 0} {config : Config} {c : Currency Bank} (runtime : IsRuntime config c)
    {Origin : Type 0} (frame : Frame Origin) where
  -- A dissolution that is due, with the withdrawal that it makes.
  retire :
      (now : ℕ) (origin : Origin) (index reporter : ℕ) (fund : FundInfo) (s : State Bank)
      (imbalance : ℕ) (b : Bank)
      → frame.ensure_signed origin ≡ some reporter
      → s.funds index ≡ some fund
      → fund.end + config.retirement_period < 2 ^ config.block_bits
      → fund.end + config.retirement_period ≤ now
      → fund.deposit + fund.raised < 2 ^ config.balance_bits
      → c.withdraw (fund_account_id config index) (fund.deposit + fund.raised) s.bank
        ≡ done (imbalance, b)
      → dissolve config frame c now origin index s ≡ (
        ok tt,
        record (crowdfund_kill config index (record s {
          funds = remove index s.funds;
          bank = c.resolve_creating reporter imbalance b;
        })) { events = s.events ++ (dissolved_event index now reporter ∷ []) },
      )
  unfolding dissolve crowdfund_kill
  retire now origin index reporter fund s imbalance b e found fits late fits' w =
      let due : leb (fund.end + config.retirement_period) now ≡ true = ground arith in
      rw
        (
          e,
          found,
          lt→ltb (fund.end + config.retirement_period) (2 ^ config.block_bits) fits,
          due,
          lt→ltb (fund.deposit + fund.raised) (2 ^ config.balance_bits) fits',
        )
        (rw (w, ◌>>=◌) (rw w refl))

  -- What was raised and the deposit together are a balance, which the pot holds.
  amount_fits :
      (index : ℕ) (fund : FundInfo) (s : State Bank)
      → index < 2 ^ 32
      → IsSound config c s
      → s.funds index ≡ some fund
      → fund.deposit + fund.raised < 2 ^ config.balance_bits
  amount_fits index fund s small h found = omega (
    arith,
    (h.stored index fund small found).covered,
    runtime.currency_laws.free_balance-le (fund_account_id config index) s.bank,
    h.issued,
    runtime.balance_width,
  )

  -- In a runtime that meets IsRuntime (the deposit covers the minimum balance, pots and hashes of
  -- different funds differ, nothing locks a pot, and the currency is as documented), and in a sound
  -- storage, a dissolution by any signed origin, of a stored fund whose retirement period is over
  -- and ends at a block number, goes through, whether or not the fund reached its goal: it returns
  -- ok, removes the fund, forgets the contributions and keeps the storage sound.
  pub dissolve_succeeds :
      (now : ℕ) (origin : Origin) (index reporter : ℕ) (fund : FundInfo) (s : State Bank)
      → index < 2 ^ 32
      → IsSound config c s
      → frame.ensure_signed origin ≡ some reporter
      → s.funds index ≡ some fund
      → fund.end + config.retirement_period < 2 ^ config.block_bits
      → fund.end + config.retirement_period ≤ now
      → let (r, s') = dissolve config frame c now origin index s in
        (r ≡ ok tt)
        × (s'.funds index ≡ none)
        × (s'.tries (id_from_index config index) ≡ [])
        × IsSound config c s'
  unfolding crowdfund_kill
  dissolve_succeeds now origin index reporter fund s small h e found fits late =
      let pot = fund_account_id config index in
      let amount = fund.deposit + fund.raised in
      let ((i, b), w) =
        runtime.pot_withdraws index amount s.bank (h.stored index fund small found).covered in
      rw
        (retire now origin index reporter fund s i b e found fits late
          (amount_fits index fund s small h found) w)
        (
          refl,
          ground arith,
          ground arith,
          Touches-IsSound runtime index s _ small
              (closed-Touches runtime index fund s _ _ small h found
                (paid_out_issued runtime pot reporter amount i s.bank b w h.issued).1
                (λ j ne hj alive.
                  paid_out_keeps runtime index reporter amount i j s.bank b small hj ne w h.issued
                    alive))
              h,
        )

  -- A dissolution in a sound storage of a stored fund whose retirement period is over and ends at a
  -- block number: a signed caller that is alive and not the pot receives exactly the deposit and
  -- all that was raised.
  pub dissolve_pays :
      (now : ℕ) (origin : Origin) (index reporter : ℕ) (fund : FundInfo) (s : State Bank)
      → index < 2 ^ 32
      → IsSound config c s
      → frame.ensure_signed origin ≡ some reporter
      → s.funds index ≡ some fund
      → fund.end + config.retirement_period < 2 ^ config.block_bits
      → fund.end + config.retirement_period ≤ now
      → reporter ≢ fund_account_id config index
      → c.minimum_balance ≤ c.free_balance reporter s.bank
      → c.free_balance reporter (dissolve config frame c now origin index s).1.bank
        ≡ c.free_balance reporter s.bank + (fund.deposit + fund.raised)
  unfolding crowdfund_kill
  dissolve_pays now origin index reporter fund s small h e found fits late other alive =
      let pot = fund_account_id config index in
      let amount = fund.deposit + fund.raised in
      let laws = runtime.currency_laws in
      let ((i, b), w) =
        runtime.pot_withdraws index amount s.bank (h.stored index fund small found).covered in
      let (exact, _, _, same) = laws.withdraw_lem pot amount i s.bank b w in
      let (credit, _, _) =
        laws.resolve_creating_lem reporter i b
          (paid_out_issued runtime pot reporter amount i s.bank b w h.issued).0 in
      rw
        (retire now origin index reporter fund s i b e found fits late
          (amount_fits index fund s small h found) w)
        (omega (arith, exact, credit, same reporter other, alive))
