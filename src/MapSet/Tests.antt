-- ===== src/MapSet/Tests.antt =====
-- The two sets of members on the same calls.
use substrate_recipes.Prelude.{◌≡◌, true, none, some, List, [], ◌∷◌}
use substrate_recipes.Mock.{Origin, mock_frame}
use substrate_recipes.Mock.Members.{vec_members, map_members, both-Agree}
use substrate_recipes.VecSet
use substrate_recipes.MapSet.{accounts}
use substrate_recipes.MapSet.Accounts.{accounts-run}
use substrate_recipes.MapSet.Agree.{Agree, Op, add, remove, vec_run, map_run, run_agrees}

-- A new member, one that is there already, a call that nobody signs, and a removal.
abbrev calls : List (Op Origin)
calls = add (some 5) ∷ add (some 3) ∷ add none ∷ remove (some 8) ∷ []

run_agrees_example :
    ((vec_run true mock_frame calls vec_members).0 ≡ (map_run true mock_frame calls map_members).0)
    × Agree
        (vec_run true mock_frame calls vec_members).1
        (map_run true mock_frame calls map_members).1
run_agrees_example = run_agrees true mock_frame calls vec_members map_members both-Agree

accounts-run_example :
    (VecSet.accounts (vec_run true mock_frame calls vec_members).1
      ≡ (vec_run true mock_frame calls vec_members).1.members)
    × (accounts (map_run true mock_frame calls map_members).1
        ≡ (vec_run true mock_frame calls vec_members).1.members)
accounts-run_example = accounts-run true mock_frame calls vec_members map_members both-Agree
