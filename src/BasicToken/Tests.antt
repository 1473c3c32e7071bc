-- ===== src/BasicToken/Tests.antt =====
-- The token with three accounts.
use substrate_recipes.Prelude.{
  ℕ, ◌+◌, ◌-◌, ◌^◌, ◌≡◌, refl, true, false, none, some, List, [], ◌∷◌, ◌==◌, if◌then◌else◌, arith,
}
use substrate_recipes.Frame.{ok}
use substrate_recipes.Mock.{mock_frame}
use substrate_recipes.BasicToken.{State, get_balance, transfer, default_supply}
use substrate_recipes.BasicToken.Supply.{total, total-transfer, transfer_to_self_mints}

-- The account 1 holds 100, and the account 3 all that fits.
abbrev open_state : State
open_state = record {
  balances = λ a. if a == 1 then some 100 else if a == 3 then some (2 ^ 64 - 1) else none;
  total_supply = default_supply;
  is_init = true;
  events = [];
}

abbrev closed_state : State
closed_state = record {
  balances = λ a. none;
  total_supply = default_supply;
  is_init = false;
  events = [];
}

abbrev accounts : List ℕ
accounts = 1 ∷ 2 ∷ []

total-transfer_example :
    total accounts (transfer mock_frame (some 1) 2 40 open_state).1.balances
    ≡ total accounts open_state.balances
total-transfer_example =
    total-transfer mock_frame (some 1) 1 2 40 open_state accounts refl (omega arith)
      (refl, (refl, tt)) refl refl

-- The account 1 sends 40 to itself and holds 140.
transfer_to_self_mints_example :
    let (r, s') = transfer mock_frame (some 1) 1 40 open_state in
    (r ≡ ok tt)
    × ((j : ℕ) → get_balance j s' ≡ (if j == 1 then 100 + 40 else get_balance j open_state))
transfer_to_self_mints_example =
    transfer_to_self_mints mock_frame (some 1) 1 40 open_state refl (omega arith) (omega arith)
