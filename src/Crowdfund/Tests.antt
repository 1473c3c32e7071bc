-- ===== src/Crowdfund/Tests.antt =====
-- The crowdfund pallet on the small runtime: a fund that succeeds and one that does not, and the
-- theorems about the calls at these runs.
use substrate_recipes.Prelude.{
  ℕ, ◌+◌, ◌-◌, ◌*◌, ◌^◌, ◌<◌, ◌≤◌, ◌≡◌, ◌≢◌, refl, true, none, some, List, [], ◌∷◌, ap, arith,
}
use substrate_recipes.Frame.{ok}
use substrate_recipes.Frame.Currency.{done}
use substrate_recipes.Mock.{mock_frame}
use substrate_recipes.Mock.Bank.{bank, bank_laws}
use substrate_recipes.Crowdfund.{
  Config, State, FundInfo, to_le_bytes, fund_account_id, id_from_index, contribution_get,
  contribution_put, crowdfund_kill, create, contribute, withdraw, dissolve, dispense,
}
use substrate_recipes.Crowdfund.ChildTrie.{Trie, get_or_default, put, total}
use substrate_recipes.Crowdfund.Runtime.{IsRuntime}
use substrate_recipes.Crowdfund.Sound.{IsSound}
use substrate_recipes.Crowdfund.Reach.{
  IsOutside, Reach, here, next, creates, contributes, genesis, Reach-IsSound,
}
use substrate_recipes.Crowdfund.Contribute.{contribute_records}
use substrate_recipes.Crowdfund.Dissolve.{dissolve_succeeds}
use substrate_recipes.Crowdfund.Withdraw.{withdraw_succeeds}
use substrate_recipes.Crowdfund.Dispense.{dispense_succeeds, dispense_pays}

-- The identifier of a child trie: the bytes of its buffer as one number.
abbrev as_number : List ℕ → ℕ
as_number [] = 0
as_number (x ∷ xs) = x + 256 * as_number xs

abbrev config : Config
config = record {
  submission_deposit = 2;
  min_contribution = 5;
  retirement_period = 10;
  balance_bits = 64;
  block_bits = 32;
  overflow_checks = true;
  into_sub_account = λ i. i + 1000;
  child_info = as_number;
}

no_collision_lem :
    (i j : ℕ)
    → i < 2 ^ 32
    → j < 2 ^ 32
    → id_from_index config i ≡ id_from_index config j
    → to_le_bytes i ≡ to_le_bytes j
unfolding id_from_index
no_collision_lem i j hi hj e = ap to_le_bytes (omega (arith, e))

runtime : IsRuntime config bank
runtime = record {
  currency_laws = bank_laws;
  sub_accounts_differ = λ i j hi hj e. omega (arith, e);
  no_collision = no_collision_lem;
  deposit_covers = omega arith;
  balance_width = refl;
  pot_withdraws = λ i x b h. (
    (x, put (fund_account_id config i) (get_or_default (fund_account_id config i) b - x) b),
    ground arith,
  );
}

abbrev holdings : Trie
holdings = (7, 100) ∷ (8, 100) ∷ (6, 50) ∷ (9, 20) ∷ []

abbrev fresh : State Trie
fresh = genesis mock_frame config bank holdings

-- The account 7 creates a fund for 9, and 8 contributes 30 to it.
abbrev created : State Trie
created = (create config mock_frame bank 1 (some 7) 9 25 5 fresh).1

abbrev funded : State Trie
funded = (contribute config mock_frame bank 2 (some 8) 0 30 created).1

outside : (a : ℕ) → a < 1000 → IsOutside mock_frame config bank (some a)
unfolding fund_account_id
outside a h i who e = ground (arith, e)

holdings_total : bank.total_issuance holdings < bank.balance_limit
unfolding total
holdings_total = omega arith

funded-Reach : Reach mock_frame config bank fresh funded
funded-Reach =
    next (next here (creates 1 (some 7) 9 25 5 (omega arith) (outside 7 (omega arith))))
      (contributes 2 (some 8) 0 30 (omega arith) (outside 8 (omega arith)))

funded-IsSound : IsSound config bank funded
funded-IsSound = Reach-IsSound runtime mock_frame holdings holdings_total funded-Reach

Reach-IsSound_example : IsSound config bank funded
Reach-IsSound_example = Reach-IsSound runtime mock_frame holdings holdings_total funded-Reach

-- What is stored of the fund.
abbrev stored_fund : FundInfo
stored_fund = record { beneficiary = 9; deposit = 2; raised = 30; end = 5; goal = 25 }

funded_at : funded.funds 0 ≡ some stored_fund
unfolding create contribute fund_account_id contribution_put
funded_at = refl

-- The pot 1000 holds the deposit and the contribution.
funded_bank : funded.bank ≡ (7, 98) ∷ (8, 70) ∷ (6, 50) ∷ (9, 20) ∷ (1000, 32) ∷ []
unfolding create contribute fund_account_id contribution_put
funded_bank = refl

dispensed_bank :
    (dispense config mock_frame bank 5 (some 6) 0 funded).1.bank
    ≡ (7, 98) ∷ (8, 70) ∷ (6, 52) ∷ (9, 50) ∷ (1000, 0) ∷ []
unfolding create contribute dispense fund_account_id contribution_put crowdfund_kill
dispensed_bank = refl

recorded : contribution_get config 0 8 funded ≡ 30
unfolding create contribute contribution_get contribution_put id_from_index fund_account_id
recorded = refl

dispense_succeeds_example :
    let (r, s') = dispense config mock_frame bank 5 (some 6) 0 funded in
    (r ≡ ok tt)
    × (s'.funds 0 ≡ none)
    × (s'.tries (id_from_index config 0) ≡ [])
    × IsSound config bank s'
dispense_succeeds_example =
    dispense_succeeds runtime mock_frame 5 (some 6) 0 6 stored_fund funded (omega arith)
      funded-IsSound refl funded_at (omega arith) (omega arith)

alive_9 : 1 ≤ bank.free_balance 9 funded.bank
alive_9 = rw funded_bank (omega arith)

alive_8 : 1 ≤ bank.free_balance 8 funded.bank
alive_8 = rw funded_bank (omega arith)

alive_6 : 1 ≤ bank.free_balance 6 funded.bank
alive_6 = rw funded_bank (omega arith)

is_no_pot : (a : ℕ) → a < 1000 → a ≢ fund_account_id config 0
unfolding fund_account_id
is_no_pot a h e = omega (arith, h, e)

dispense_pays_example :
    let (r, s') = dispense config mock_frame bank 5 (some 6) 0 funded in
    (bank.free_balance 9 s'.bank ≡ bank.free_balance 9 funded.bank + 30)
    × (bank.free_balance 6 s'.bank ≡ bank.free_balance 6 funded.bank + 2)
dispense_pays_example =
    dispense_pays runtime mock_frame 5 (some 6) 0 6 stored_fund funded (omega arith) funded-IsSound
      refl funded_at (omega arith) (omega arith) (omega arith) (is_no_pot 9 (omega arith))
      (is_no_pot 6 (omega arith)) alive_9 alive_6

-- The contributor asks for the money back after the end, although the goal was reached.
withdraw_succeeds_example :
    let (r, s') = withdraw config mock_frame bank 6 (some 8) 0 funded in
    let contribution = contribution_get config 0 8 funded in
    (r ≡ ok tt)
    × (bank.free_balance 8 s'.bank ≡ bank.free_balance 8 funded.bank + contribution)
    × (bank.free_balance (fund_account_id config 0) s'.bank + contribution
        ≡ bank.free_balance (fund_account_id config 0) funded.bank)
    × (s'.funds 0 ≡ some (record stored_fund { raised = 30 - contribution }))
    × (contribution ≤ 30)
    × (contribution_get config 0 8 s' ≡ 0)
withdraw_succeeds_example =
    withdraw_succeeds runtime mock_frame 6 (some 8) 0 8 stored_fund funded (omega arith)
      (outside 8 (omega arith)) funded-IsSound refl funded_at (omega arith)
      (rw recorded (omega arith)) alive_8

dissolve_succeeds_example :
    let (r, s') = dissolve config mock_frame bank 15 (some 6) 0 funded in
    (r ≡ ok tt)
    × (s'.funds 0 ≡ none)
    × (s'.tries (id_from_index config 0) ≡ [])
    × IsSound config bank s'
dissolve_succeeds_example =
    dissolve_succeeds runtime mock_frame 15 (some 6) 0 6 stored_fund funded (omega arith)
      funded-IsSound refl funded_at (omega arith) (omega arith)

-- A second contribution of 8.
abbrev after_transfer : Trie
after_transfer = (7, 98) ∷ (8, 60) ∷ (6, 50) ∷ (9, 20) ∷ (1000, 42) ∷ []

transfer_done : bank.transfer 8 (fund_account_id config 0) 10 funded.bank ≡ done after_transfer
unfolding create contribute fund_account_id contribution_put
transfer_done = refl

contribute_records_example :
    let (r, s') = contribute config mock_frame bank 4 (some 8) 0 10 funded in
    (r ≡ ok tt)
    × (s'.funds 0 ≡ some (record stored_fund { raised = 30 + 10 }))
    × (contribution_get config 0 8 s' ≡ contribution_get config 0 8 funded + 10)
    × (bank.free_balance (fund_account_id config 0) s'.bank
        ≡ bank.free_balance (fund_account_id config 0) funded.bank + 10)
contribute_records_example =
    contribute_records runtime mock_frame 4 (some 8) 0 8 10 stored_fund funded after_transfer
      (omega arith) (is_no_pot 8 (omega arith)) funded-IsSound refl funded_at (omega arith)
      (omega arith) transfer_done
