-- ===== src/ConstantConfig/Tests.antt =====
-- Blocks with additions, with a limit of 100 and a clearing at every tenth block.
use substrate_recipes.Prelude.{ℕ, ◌≡◌, refl, some, List, [], ◌∷◌}
use substrate_recipes.Mock.{Origin, mock_frame}
use substrate_recipes.ConstantConfig.{Config, State, add_value, on_finalize}
use substrate_recipes.ConstantConfig.Blocks.{add_values, run_block}

abbrev config : Config
config = record { max_addend = 100; clear_frequency = 10 }

abbrev seventy : State
seventy = record { single_value = 70; events = [] }

-- An addition, one that is too large, and one more.
abbrev calls : List (Origin × ℕ)
calls = (some 1, 60) ∷ (some 2, 101) ∷ (some 2, 5) ∷ []

block_nine : (run_block config mock_frame 9 calls seventy).single_value ≡ 135
unfolding run_block add_values add_value on_finalize
block_nine = refl
