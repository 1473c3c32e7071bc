-- ===== src/Crowdfund/Reach.antt =====
-- Every way in which the crowdfund storage can come about: calls of the pallet by origins that do
-- not own a pot, in any order and at any block, and whatever the rest of the runtime does to the
-- currency in between, as long as no pot loses by it.
use substrate_recipes.Prelude.{ℕ, suc, ◌^◌, ◌≤◌, ◌<◌, ◌≡◌, ◌≢◌, none, some, [], refl, arith}
use substrate_recipes.Frame.{Frame}
use substrate_recipes.Frame.Currency.{Currency}
use substrate_recipes.Crowdfund.{
  Config, State, fund_account_id, create, contribute, withdraw, dissolve, dispense,
}
use substrate_recipes.Crowdfund.Runtime.{IsRuntime}
use substrate_recipes.Crowdfund.Sound.{IsSound}
use substrate_recipes.Crowdfund.Create.{create-IsSound}
use substrate_recipes.Crowdfund.Contribute.{contribute-IsSound}
use substrate_recipes.Crowdfund.Withdraw.{withdraw-IsSound}
use substrate_recipes.Crowdfund.Close.{dissolve-IsSound}
use substrate_recipes.Crowdfund.Dispense.{dispense-IsSound}

module _ {Origin Bank : Type 0} (frame : Frame Origin) (config : Config) (c : Currency Bank) where
  -- Nobody signs for a pot: it has no key.
  abbrev pub IsOutside : Origin → Type 0
  IsOutside origin =
      (i who : ℕ) → frame.ensure_signed origin ≡ some who → who ≢ fund_account_id config i

  pub data Step (s : State Bank) : State Bank → Type 0 where
    creates :
        (now : ℕ) (origin : Origin) (beneficiary goal end : ℕ)
        → suc s.fund_count < 2 ^ 32
        → IsOutside origin
        → Step s (create config frame c now origin beneficiary goal end s).1
    contributes :
        (now : ℕ) (origin : Origin) (index value : ℕ)
        → index < 2 ^ 32
        → IsOutside origin
        → Step s (contribute config frame c now origin index value s).1
    withdraws :
        (now : ℕ) (origin : Origin) (index : ℕ)
        → index < 2 ^ 32
        → IsOutside origin
        → Step s (withdraw config frame c now origin index s).1
    dissolves :
        (now : ℕ) (origin : Origin) (index : ℕ)
        → index < 2 ^ 32
        → Step s (dissolve config frame c now origin index s).1
    dispenses :
        (now : ℕ) (origin : Origin) (index : ℕ)
        → index < 2 ^ 32
        → Step s (dispense config frame c now origin index s).1
    elsewhere :
        (b : Bank)
        → ((i : ℕ)
            → c.free_balance (fund_account_id config i) s.bank
              ≤ c.free_balance (fund_account_id config i) b)
        → c.total_issuance b < c.balance_limit
        → Step s (record s { bank = b })

  pub data Reach (s : State Bank) : State Bank → Type 0 where
    here : Reach s s
    next : {t u : State Bank} → Reach s t → Step t u → Reach s u

  -- The storage before the first call.
  abbrev pub genesis : Bank → State Bank
  genesis b = record { funds = λ i. none; fund_count = 0; tries = λ i. []; bank = b; events = [] }

module _ {Bank : Type 0} {config : Config} {c : Currency Bank} (runtime : IsRuntime config c)
    {Origin : Type 0} (frame : Frame Origin) where
  Step-IsSound :
      {s t : State Bank} → Step frame config c s t → IsSound config c s → IsSound config c t
  Step-IsSound {s} (creates now origin b g e room outside) h =
      create-IsSound runtime frame now origin b g e s room outside h
  Step-IsSound {s} (contributes now origin index value small outside) h =
      contribute-IsSound runtime frame now origin index value s small outside h
  Step-IsSound {s} (withdraws now origin index small outside) h =
      withdraw-IsSound runtime frame now origin index s small outside h
  Step-IsSound {s} (dissolves now origin index small) h =
      dissolve-IsSound runtime frame now origin index s small h
  Step-IsSound {s} (dispenses now origin index small) h =
      dispense-IsSound runtime frame now origin index s small h
  Step-IsSound {s} (elsewhere b kept issued) h = record {
    stored = λ i fund hi e.
        let f = h.stored i fund hi e in
        record {
          listed = f.listed;
          minimal = f.minimal;
          covered = omega (arith, f.covered, kept i);
          counted = f.counted;
          keyed = f.keyed;
        };
    unborn = h.unborn;
    issued = issued;
  }

  genesis-IsSound :
      (b : Bank)
      → c.total_issuance b < c.balance_limit
      → IsSound config c (genesis frame config c b)
  genesis-IsSound b issued = record {
    stored = λ i fund hi e. cc;
    unborn = λ i hi new. refl;
    issued = issued;
  }

  -- In a runtime whose currency does what its documentation says, where the pots of different funds
  -- are different accounts, the hashes of their identifiers differ, the submission deposit is at
  -- least the minimum balance of the currency, so that it keeps a pot alive, and nothing locks what
  -- a pot holds: from the empty storage over a currency whose issuance is a balance, any sequence
  -- of calls by origins that own no pot, with changes of the currency in between that take from no
  -- pot and leave its issuance a balance, and with fewer than 2^32 funds, leads to a sound storage:
  -- the pot of every stored fund holds at least the deposit and what was raised, and what was
  -- raised is the sum of the recorded contributions, of which there is one for each contributor.
  pub Reach-IsSound :
      (b : Bank)
      → c.total_issuance b < c.balance_limit
      → {s : State Bank} → Reach frame config c (genesis frame config c b) s
      → IsSound config c s
  Reach-IsSound b issued here = genesis-IsSound b issued
  Reach-IsSound b issued (next r st) = Step-IsSound st (Reach-IsSound b issued r)
