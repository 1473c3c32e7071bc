-- ===== src/Charity/Tests.antt =====
-- The charity on the small runtime, with the pot at account 900.
use substrate_recipes.Prelude.{◌+◌, ◌≤◌, refl, some, [], ◌∷◌, arith}
use substrate_recipes.Crowdfund.ChildTrie.{Trie, total}
use substrate_recipes.Mock.{mock_frame}
use substrate_recipes.Mock.Bank.{bank, bank_laws}
use substrate_recipes.Charity.{State, donate, allocate, on_nonzero_unbalanced}
use substrate_recipes.Charity.Pot.{Reach, here, next, donates, allocates, absorbs}

abbrev given : State Trie
given = record { bank = (900, 10) ∷ (1, 100) ∷ []; events = [] }

-- A donation, an allocation that is refused, and an imbalance of 7.
abbrev donated : State Trie
donated = (donate 900 bank mock_frame (some 1) 30 given).1

abbrev refused : State Trie
refused = (allocate 900 bank mock_frame (some 1) 1 5 donated).1

absorbed_fits : bank.total_issuance refused.bank + 7 ≤ 200
unfolding donate allocate total
absorbed_fits = omega arith

visits : Reach 900 bank bank_laws mock_frame given (on_nonzero_unbalanced 900 bank 7 refused)
visits =
    next
      (next (next here (donates (some 1) 30 (λ who e. ground (arith, e))))
        (allocates (some 1) 1 5 refl))
      (absorbs 7 (omega (arith, absorbed_fits)))
