-- ===== src/Crowdfund/Dispense.antt =====
-- `dispense`: it keeps the storage sound, and a payout that is due goes through whole.
use substrate_recipes.Prelude.{
  ℕ, ◌+◌, ◌^◌, ◌≤◌, ◌<◌, ◌≡◌, ◌≢◌, refl, [], ◌∷◌, ◌++◌, none, some, arith, sym, Bool-cases,
  Option-cases, inl, inr, leb, true,
}
use substrate_recipes.Frame.{Frame, ok, ◌>>=◌}
use substrate_recipes.Frame.Storage.{remove}
use substrate_recipes.Frame.Currency.{done, Currency}
use substrate_recipes.Crowdfund.{
  Config, State, FundInfo, fund_account_id, id_from_index, dispense, dispensed as dispensed_event,
  crowdfund_kill,
}
use substrate_recipes.Crowdfund.Runtime.{IsRuntime}
use substrate_recipes.Crowdfund.Sound.{IsSound, Touches-IsSound}
use substrate_recipes.Crowdfund.Close.{
  closed-Touches, paid_out_keeps, paid_out_issued, paid_out_rest,
}

module _ {Bank : Type 0} {config : Config} {c : Currency Bank} (runtime : IsRuntime config c)
    {Origin : Type 0} (frame : Frame Origin) where
  -- The two withdrawals of a dispense from a sound state: both go through, and no other pot loses.
  record Dispensed (index caller : ℕ) (fund : FundInfo) (s : State Bank) (b : Bank) : Type 0 where
    before : Bank
    imbalance : ℕ
    imbalance' : ℕ
    between : Bank
    first : c.withdraw (fund_account_id config index) fund.raised s.bank ≡ done (imbalance, before)
    second :
        c.withdraw
          (fund_account_id config index)
          fund.deposit
          (c.resolve_creating fund.beneficiary imbalance before)
        ≡ done (imbalance', between)
    settled : b ≡ c.resolve_creating caller imbalance' between
    in_limit : c.total_issuance b < c.balance_limit
    in_limit_between :
        c.total_issuance (c.resolve_creating fund.beneficiary imbalance before) < c.balance_limit
    kept :
        (i : ℕ)
        → i ≢ index
        → i < 2 ^ 32
        → c.minimum_balance ≤ c.free_balance (fund_account_id config i) s.bank
        → c.free_balance (fund_account_id config i) s.bank
          ≤ c.free_balance (fund_account_id config i) b

  dispensed :
      (index caller : ℕ) (fund : FundInfo) (s : State Bank)
      → index < 2 ^ 32
      → IsSound config c s
      → s.funds index ≡ some fund
      → (b : Bank) × Dispensed index caller fund s b
  dispensed index caller fund s small h found =
      let f = h.stored index fund small found in
      let pot = fund_account_id config index in
      let ((i1, b1), w1) =
        runtime.pot_withdraws index fund.raised s.bank (omega (arith, f.covered)) in
      let b2 = c.resolve_creating fund.beneficiary i1 b1 in
      let (_, issued') =
        paid_out_issued runtime pot fund.beneficiary fund.raised i1 s.bank b1 w1 h.issued in
      let rest =
        paid_out_rest runtime index fund.beneficiary fund.raised i1 s.bank b1 w1 h.issued
          (omega (arith, f.covered, f.minimal)) in
      let ((i3, b3), w3) =
        runtime.pot_withdraws index fund.deposit b2 (omega (arith, f.covered, rest)) in
      (
        c.resolve_creating caller i3 b3,
        record {
          in_limit = (paid_out_issued runtime pot caller fund.deposit i3 b2 b3 w3 issued').1;
          in_limit_between = issued';
          before = b1;
          imbalance = i1;
          imbalance' = i3;
          between = b3;
          first = w1;
          second = w3;
          settled = refl;
          kept = λ i ne hi alive.
              let k1 =
                paid_out_keeps runtime index fund.beneficiary fund.raised i1 i s.bank b1 small hi ne
                  w1 h.issued alive in
              omega (
                arith,
                k1,
                paid_out_keeps runtime index caller fund.deposit i3 i b2 b3 small hi ne w3 issued'
                    (omega (arith, k1, alive)),
              );
        },
      )

  -- A dispense that is due.
  due :
      (now : ℕ) (origin : Origin) (index caller : ℕ) (fund : FundInfo) (s : State Bank) (b : Bank)
      → frame.ensure_signed origin ≡ some caller
      → s.funds index ≡ some fund
      → leb fund.end now ≡ true
      → leb fund.goal fund.raised ≡ true
      → Dispensed index caller fund s b
      → dispense config frame c now origin index s ≡ (
        ok tt,
        record (crowdfund_kill config index (record s { funds = remove index s.funds; bank = b })) {
          events = s.events ++ (dispensed_event index now caller ∷ []);
        },
      )
  unfolding dispense crowdfund_kill
  due now origin index caller fund s b e found over won d =
      rw (e, found, over, won)
        (rw (d.first, ◌>>=◌) (rw d.first (rw (d.second, ◌>>=◌) (rw (d.second, d.settled)))))

  -- In a runtime that meets IsRuntime (the deposit covers the minimum balance, pots and hashes of
  -- different funds differ, nothing locks a pot, and the currency is as documented), and in a sound
  -- storage, a dispense by any signed origin, of a stored fund that has ended and reached its goal,
  -- goes through: it returns ok, removes the fund, forgets the contributions and keeps the storage
  -- sound.
  pub dispense_succeeds :
      (now : ℕ) (origin : Origin) (index caller : ℕ) (fund : FundInfo) (s : State Bank)
      → index < 2 ^ 32
      → IsSound config c s
      → frame.ensure_signed origin ≡ some caller
      → s.funds index ≡ some fund
      → fund.end ≤ now
      → fund.goal ≤ fund.raised
      → let (r, s') = dispense config frame c now origin index s in
        (r ≡ ok tt)
        × (s'.funds index ≡ none)
        × (s'.tries (id_from_index config index) ≡ [])
        × IsSound config c s'
  unfolding crowdfund_kill
  dispense_succeeds now origin index caller fund s small h e found over won =
      let (b, d) = dispensed index caller fund s small h found in
      rw (due now origin index caller fund s b e found (ground arith) (ground arith) d) (
        refl,
        ground arith,
        ground arith,
        Touches-IsSound runtime index s _ small
            (closed-Touches runtime index fund s b _ small h found d.in_limit d.kept) h,
      )

  -- In a runtime that meets IsRuntime (the deposit covers the minimum balance, pots and hashes of
  -- different funds differ, nothing locks a pot, and the currency is as documented), a dispense in
  -- a sound storage, by a signed caller, of a stored fund that has ended and reached its goal:
  -- where the beneficiary, the caller and the pot differ and the first two are alive, the
  -- beneficiary receives exactly what was raised and the caller exactly the deposit.
  pub dispense_pays :
      (now : ℕ) (origin : Origin) (index caller : ℕ) (fund : FundInfo) (s : State Bank)
      → index < 2 ^ 32
      → IsSound config c s
      → frame.ensure_signed origin ≡ some caller
      → s.funds index ≡ some fund
      → fund.end ≤ now
      → fund.goal ≤ fund.raised
      → fund.beneficiary ≢ caller
      → fund.beneficiary ≢ fund_account_id config index
      → caller ≢ fund_account_id config index
      → c.minimum_balance ≤ c.free_balance fund.beneficiary s.bank
      → c.minimum_balance ≤ c.free_balance caller s.bank
      → let (r, s') = dispense config frame c now origin index s in
        (c.free_balance fund.beneficiary s'.bank
          ≡ c.free_balance fund.beneficiary s.bank + fund.raised)
        × (c.free_balance caller s'.bank ≡ c.free_balance caller s.bank + fund.deposit)
  unfolding crowdfund_kill
  dispense_pays now origin index caller fund s small h e found over won bc bp cp ab ac =
      let pot = fund_account_id config index in
      let laws = runtime.currency_laws in
      let (b, d) = dispensed index caller fund s small h found in
      let (x1, _, _, s1) = laws.withdraw_lem pot fund.raised d.imbalance s.bank d.before d.first in
      let (c2, s2, _) =
        laws.resolve_creating_lem fund.beneficiary d.imbalance d.before
          (paid_out_issued runtime pot caller fund.raised d.imbalance s.bank d.before d.first
            h.issued).0 in
      let b2 = c.resolve_creating fund.beneficiary d.imbalance d.before in
      let (x3, _, _, s3) = laws.withdraw_lem pot fund.deposit d.imbalance' b2 d.between d.second in
      let (c4, s4, _) =
        laws.resolve_creating_lem caller d.imbalance' d.between
          (paid_out_issued runtime pot caller fund.deposit d.imbalance' b2 d.between d.second
            d.in_limit_between).0 in
      rw (due now origin index caller fund s b e found (ground arith) (ground arith) d) (
        rw d.settled (
          omega (
            arith,
            x1,
            s1 fund.beneficiary bp,
            c2,
            s3 fund.beneficiary bp,
            s4 fund.beneficiary bc,
          ),
          omega (arith, x3, s1 caller cp, s2 caller (λ p. bc (sym p)), s3 caller cp, c4),
        ))

  -- A dispense by anyone keeps the storage sound, whether it succeeds or fails.
  pub dispense-IsSound :
      (now : ℕ) (origin : Origin) (index : ℕ) (s : State Bank)
      → index < 2 ^ 32
      → IsSound config c s
      → IsSound config c (dispense config frame c now origin index s).1
  unfolding dispense
  dispense-IsSound now origin index s small h = elim (Option-cases (frame.ensure_signed origin)) [
    | inl e ↦ rw e h
    | inr (who, e) ↦ elim (Option-cases (s.funds index)) [
      | inl missing ↦ rw (e, missing) h
      | inr (fund, found) ↦ elim (Bool-cases (leb fund.end now)) [
        | inr active ↦ rw (e, found, active) h
        | inl over ↦ elim (Bool-cases (leb fund.goal fund.raised)) [
          | inr short ↦ rw (e, found, over, short) h
          | inl won ↦
              (dispense_succeeds now origin index who fund s small h e found (ground arith)
                (ground arith)).3
        ]
      ]
    ]
  ]
