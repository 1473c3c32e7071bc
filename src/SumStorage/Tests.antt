-- ===== src/SumStorage/Tests.antt =====
-- A node that knows one block.
use substrate_recipes.Prelude.{
  ℕ, ◌≡◌, refl, true, none, some, List, [], ◌∷◌, ◌==◌, if◌then◌else◌, inr,
}
use substrate_recipes.Mock.{Origin, mock_frame}
use substrate_recipes.SumStorage.{
  State, Client, set_thing_1, set_thing_2, get_sum, api_get_sum, rpc_get_sum,
}
use substrate_recipes.SumStorage.Query.{
  PalletCall, set_1, set_2, run, last_values, reply, rpc_get_sum-run,
}

abbrev genesis : State
genesis = record { thing1 = 0; thing2 = 0; events = [] }

abbrev calls : List (Origin × PalletCall)
calls = (some 1, set_1 7) ∷ (none, set_1 8) ∷ (some 2, set_2 5) ∷ []

abbrev client : Client ℕ
unfolding run
client = record {
  best_hash = 9;
  state_at = λ at. if at == 9 then some (run mock_frame calls genesis) else none;
  unknown_block = λ at. 1;
  panicked = 2;
}

rpc_get_sum-run_example :
    rpc_get_sum true client none ≡ reply true client (last_values mock_frame calls (0, 0))
unfolding client
rpc_get_sum-run_example = rpc_get_sum-run mock_frame true client none calls genesis refl

twelve : rpc_get_sum true client none ≡ inr 12
unfolding client rpc_get_sum api_get_sum get_sum run set_thing_1 set_thing_2
twelve = refl
