-- ===== src/Crowdfund/Unfunded.antt =====
-- What becomes of a fund in a runtime whose minimum balance is above the submission deposit.
use substrate_recipes.Prelude.{ℕ, ◌+◌, ◌^◌, ◌<◌, ◌≡◌, refl, some, arith, lt→ltb}
use substrate_recipes.Frame.{Frame, ok, ◌>>=◌}
use substrate_recipes.Frame.Storage.{insert}
use substrate_recipes.Frame.Currency.{done, Currency}
use substrate_recipes.Crowdfund.{Config, State, FundInfo, fund_account_id, create}
use substrate_recipes.Crowdfund.Sound.{IsSound}

-- An account that is not there is not made by less than the minimum balance: the imbalance is dropped.
pub record IsReaping {Bank : Type 0} (c : Currency Bank) : Type 0 where
  pub resolve_creating_short :
      (a x : ℕ) (b : Bank)
      → c.free_balance a b ≡ 0
      → x < c.minimum_balance
      → c.free_balance a (c.resolve_creating a x b) ≡ 0

module _ {Origin Bank : Type 0} {config : Config} {c : Currency Bank} (laws : IsReaping c)
    (frame : Frame Origin) where
  uncovered :
      (s : State Bank) (fund : FundInfo) (i : ℕ)
      → i < 2 ^ 32
      → s.funds i ≡ some fund
      → 0 < fund.deposit
      → c.free_balance (fund_account_id config i) s.bank ≡ 0
      → IsSound config c s
      → ⊥
  uncovered s fund i small stored positive empty sound =
      let f = sound.stored i fund small stored in omega (arith, f.covered, positive, empty)

  -- Where the deposit is positive but below the minimum balance, an account is not made by less
  -- than that, and the pot is empty: a creation by a signed origin with an end to come and an index
  -- to spare, whose deposit the currency lets it pay, returns ok and stores the fund with its
  -- deposit, though the pot stays empty, so the storage is not sound.
  pub unfunded-create :
      (now : ℕ) (origin : Origin) (who beneficiary goal end : ℕ) (s : State Bank) (b : Bank)
      → 0 < config.submission_deposit
      → config.submission_deposit < c.minimum_balance
      → frame.ensure_signed origin ≡ some who
      → now < end
      → s.fund_count + 1 < 2 ^ 32
      → c.withdraw who config.submission_deposit s.bank ≡ done (config.submission_deposit, b)
      → c.free_balance (fund_account_id config s.fund_count) b ≡ 0
      → let (r, s') = create config frame c now origin beneficiary goal end s in
        let fund : FundInfo = record {
          beneficiary = beneficiary;
          deposit = config.submission_deposit;
          raised = 0;
          end = end;
          goal = goal;
        } in
        (r ≡ ok tt)
        × (s'.funds s.fund_count ≡ some fund)
        × (c.free_balance (fund_account_id config s.fund_count) s'.bank ≡ 0)
        × ((IsSound config c s') → ⊥)
  unfolding create
  unfunded-create now origin who beneficiary goal end s b positive short e late room w empty =
      let pot = fund_account_id config s.fund_count in
      let dead = laws.resolve_creating_short pot config.submission_deposit b empty short in
      let fund : FundInfo = record {
        beneficiary = beneficiary;
        deposit = config.submission_deposit;
        raised = 0;
        end = end;
        goal = goal;
      } in
      let stored : insert s.fund_count fund s.funds s.fund_count ≡ some fund = ground arith in
      rw e (
        rw (lt→ltb now end late) (
          rw (w, ◌>>=◌)
            (rw w (
              rw (lt→ltb (s.fund_count + 1) (2 ^ 32) room) (
                refl,
                stored,
                dead,
                uncovered _ fund s.fund_count (omega arith) stored positive dead,
              )))))
