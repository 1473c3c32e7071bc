-- ===== src/Crowdfund.antt =====
-- The crowdfund pallet (pallets/simple-crowdfund/src/lib.rs): its storage, its errors and events,
-- its helpers and its five calls.
pub mod ChildTrie
pub mod Reach
pub mod Runtime
pub mod Sound
pub mod Close
pub mod Contribute
pub mod Dispense
pub mod Dissolve
pub mod Create
pub mod Withdraw
pub mod Unfunded
mod Tests
use substrate_recipes.Prelude.{
  ℕ, ◌+◌, ◌%◌, ◌/◌, ◌≡◌, Bool, true, false, Option, none, some, List, [], ◌∷◌, ◌++◌, map,
  if◌then◌else◌, ltb, leb, ◌==◌,
}
use substrate_recipes.Prelude.Words.{plain_add, saturating_add, saturating_sub}
use substrate_recipes.Frame.{
  Frame, Outcome, Call, ok, err, panic, signed, modify, gets, ensure, expect, ok_or, module_error,
  foreign, DispatchError, ◌>>=◌, ◌>>◌, pure, bad_origin, fail,
}
use substrate_recipes.Frame.Storage.{StorageMap, insert, remove}
use substrate_recipes.Frame.Currency.{Attempt, done, failed, Currency}
use ChildTrie.{Trie, get_or_default, put, kill}

pub record FundInfo : Type 0 where
  pub beneficiary : ℕ
  pub deposit : ℕ
  pub raised : ℕ
  pub end : ℕ
  pub goal : ℕ

pub data Event : Type 0 where
  created : ℕ → ℕ → Event
  contributed withdrew : ℕ → ℕ → ℕ → ℕ → Event
  retiring : ℕ → ℕ → Event
  dissolved dispensed : ℕ → ℕ → ℕ → Event

pub data Error : Type 0 where
  end_too_early contribution_too_small invalid_index contribution_period_over : Error
  fund_still_active no_contribution fund_not_retired unsuccessful_fund : Error

-- The constants of the `Config` trait, the widths of `Balance` and `BlockNumber`, whether the build
-- checks overflow, and two functions of the runtime: the account of a pot (`into_sub_account` of
-- the pallet's id) and the identifier of a child trie (from a hash by `Hashing`).
pub record Config : Type 0 where
  pub submission_deposit : ℕ
  pub min_contribution : ℕ
  pub retirement_period : ℕ
  pub balance_bits : ℕ
  pub block_bits : ℕ
  pub overflow_checks : Bool
  pub into_sub_account : ℕ → ℕ
  pub child_info : List ℕ → ℕ

-- `Funds` and `FundCount`, the child tries by their identifiers, the storage of the currency, and
-- the events deposited so far.
pub record State (Bank : Type 0) : Type 0 where
  pub funds : StorageMap FundInfo
  pub fund_count : ℕ
  pub tries : ℕ → Trie
  pub bank : Bank
  pub events : List Event

-- `b"crowdfnd"`
abbrev crowdfnd : List ℕ
crowdfnd = b'c' ∷ b'r' ∷ b'o' ∷ b'w' ∷ b'd' ∷ b'f' ∷ b'n' ∷ b'd' ∷ []

-- `u32::to_le_bytes`
abbrev pub to_le_bytes : ℕ → List ℕ
to_le_bytes i = (i % 256) ∷ (i / 256 % 256) ∷ (i / 65536 % 256) ∷ (i / 16777216 % 256) ∷ []

module _ {Bank : Type 0} where
  -- `?` on a result of the currency, which then is the pallet's new view of the currency.
  abbrev paid : Attempt Bank → Call (State Bank) Error (Unit {0})
  paid (done b) s = (ok tt, record s { bank = b })
  paid (failed e) s = (err (foreign e), s)

  abbrev drawn : Attempt (ℕ × Bank) → Call (State Bank) Error ℕ
  drawn (done (imbalance, b)) s = (ok imbalance, record s { bank = b })
  drawn (failed e) s = (err (foreign e), s)

module _ (config : Config) where
  open config use {
    submission_deposit, min_contribution, retirement_period, balance_bits, block_bits,
    overflow_checks, into_sub_account, child_info,
  }

  unfoldable pub fund_account_id : ℕ → ℕ
  fund_account_id index = into_sub_account index

  pub id_from_index : ℕ → ℕ
  id_from_index index = child_info (crowdfnd ++ to_le_bytes index)

  module _ {Bank : Type 0} where
    abbrev set_trie : ℕ → (Trie → Trie) → State Bank → State Bank
    set_trie id f s = record s { tries = λ j. if j == id then f (s.tries id) else s.tries j }

    pub contribution_put : ℕ → ℕ → ℕ → State Bank → State Bank
    contribution_put index who balance = set_trie (id_from_index index) (put who balance)

    pub contribution_get : ℕ → ℕ → State Bank → ℕ
    contribution_get index who s = get_or_default who (s.tries (id_from_index index))

    pub contribution_kill : ℕ → ℕ → State Bank → State Bank
    contribution_kill index who = set_trie (id_from_index index) (kill who)

    pub crowdfund_kill : ℕ → State Bank → State Bank
    crowdfund_kill index = set_trie (id_from_index index) (λ t. [])

    abbrev set_fund : ℕ → FundInfo → State Bank → State Bank
    set_fund index fund s = record s { funds = insert index fund s.funds }

    abbrev remove_fund : ℕ → State Bank → State Bank
    remove_fund index s = record s { funds = remove index s.funds }

    abbrev deposit_event : Event → State Bank → State Bank
    deposit_event e s = record s { events = s.events ++ (e ∷ []) }

    -- `Self::funds(index).ok_or(InvalidIndex)?`
    abbrev fund_at : ℕ → Call (State Bank) Error FundInfo
    fund_at index s = ok_or (s.funds index) (module_error invalid_index) s

  module _ {Origin Bank : Type 0} (frame : Frame Origin) (currency : Currency Bank) where
    -- `Currency::withdraw(…)?`, with the imbalance it returns.
    abbrev withdraw_from : ℕ → ℕ → Call (State Bank) Error ℕ
    withdraw_from who amount s = drawn (currency.withdraw who amount s.bank) s

    -- `Currency::transfer(…)?`
    abbrev transfer_to : ℕ → ℕ → ℕ → Call (State Bank) Error (Unit {0})
    transfer_to source dest amount s = paid (currency.transfer source dest amount s.bank) s

    abbrev resolve : ℕ → ℕ → State Bank → State Bank
    resolve who imbalance s = record s { bank = currency.resolve_creating who imbalance s.bank }

    abbrev resolve_existing : ℕ → ℕ → State Bank → State Bank
    resolve_existing who imbalance s = record s {
      bank = currency.resolve_into_existing who imbalance s.bank;
    }

    pub create : ℕ → Origin → ℕ → ℕ → ℕ → Call (State Bank) Error (Unit {0})
    create now origin beneficiary goal end = do
      creator ← signed frame origin
      ensure (ltb now end) (module_error end_too_early)
      let deposit = submission_deposit
      imb ← withdraw_from creator deposit
      index ← gets (λ s. s.fund_count)
      count ← expect (plain_add 32 overflow_checks index 1)
      modify λ s. record s { fund_count = count }
      modify (resolve (fund_account_id index) imb)
      modify (
          set_fund index (record {
            beneficiary = beneficiary;
            deposit = deposit;
            raised = 0;
            end = end;
            goal = goal;
          }))
      modify (deposit_event (created index now))

    pub contribute : ℕ → Origin → ℕ → ℕ → Call (State Bank) Error (Unit {0})
    contribute now origin index value = do
      who ← signed frame origin
      ensure (leb min_contribution value) (module_error contribution_too_small)
      fund ← fund_at index
      ensure (ltb now fund.end) (module_error contribution_period_over)
      transfer_to who (fund_account_id index) value
      raised ← expect (plain_add balance_bits overflow_checks fund.raised value)
      modify (set_fund index (record fund { raised = raised }))
      balance ← gets (contribution_get index who)
      let balance' = saturating_add balance_bits balance value
      modify (contribution_put index who balance')
      modify (deposit_event (contributed who index balance' now))

    pub withdraw : ℕ → Origin → ℕ → Call (State Bank) Error (Unit {0})
    withdraw now origin index = do
      who ← signed frame origin
      fund ← fund_at index
      ensure (ltb fund.end now) (module_error fund_still_active)
      balance ← gets (contribution_get index who)
      ensure (ltb 0 balance) (module_error no_contribution)
      imb ← withdraw_from (fund_account_id index) balance
      modify (resolve_existing who imb)
      modify (contribution_kill index who)
      modify (set_fund index (record fund { raised = saturating_sub fund.raised balance }))
      modify (deposit_event (withdrew who index balance now))

    pub dissolve : ℕ → Origin → ℕ → Call (State Bank) Error (Unit {0})
    dissolve now origin index = do
      reporter ← signed frame origin
      fund ← fund_at index
      retired ← expect (plain_add block_bits overflow_checks fund.end retirement_period)
      ensure (leb retired now) (module_error fund_not_retired)
      amount ← expect (plain_add balance_bits overflow_checks fund.deposit fund.raised)
      imb ← withdraw_from (fund_account_id index) amount
      modify (resolve reporter imb)
      modify (remove_fund index)
      modify (crowdfund_kill index)
      modify (deposit_event (dissolved index now reporter))

    pub dispense : ℕ → Origin → ℕ → Call (State Bank) Error (Unit {0})
    dispense now origin index = do
      caller ← signed frame origin
      fund ← fund_at index
      ensure (leb fund.end now) (module_error fund_still_active)
      ensure (leb fund.goal fund.raised) (module_error unsuccessful_fund)
      imb ← withdraw_from (fund_account_id index) fund.raised
      modify (resolve fund.beneficiary imb)
      imb' ← withdraw_from (fund_account_id index) fund.deposit
      modify (resolve caller imb')
      modify (remove_fund index)
      modify (crowdfund_kill index)
      modify (deposit_event (dispensed index now caller))
