-- ===== src/DoubleMap/Tests.antt =====
-- Members, groups and scores of a small club.
use substrate_recipes.Prelude.{ℕ, ◌≡◌, refl, none, some, [], ◌∷◌, ◌==◌, ◌&&◌, if◌then◌else◌}
use substrate_recipes.Frame.{ok}
use substrate_recipes.Mock.{mock_frame}
use substrate_recipes.DoubleMap.{State, remove_group_score}
use substrate_recipes.DoubleMap.Groups.{outsider_clears_group_zero}

-- The member 1 is in the group 3 with a score of 50.
abbrev club : State
club = record {
  member_score = λ g k. if g == 3 && k == 1 then some 50 else none;
  group_membership = λ k. if k == 1 then some 3 else none;
  all_members = 1 ∷ [];
  events = [];
}

outsider_clears_group_zero_example :
    let (r, s') = remove_group_score mock_frame (some 9) 0 club in
    (r ≡ ok tt)
    × ((g k : ℕ) → s'.member_score g k ≡ (if g == 0 then none else club.member_score g k))
outsider_clears_group_zero_example = outsider_clears_group_zero mock_frame (some 9) 9 club refl refl
