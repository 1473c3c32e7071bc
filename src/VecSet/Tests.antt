-- ===== src/VecSet/Tests.antt =====
-- Two orders of the same calls, on the small runtime.
use substrate_recipes.Prelude.{◌≡◌, refl, some, [], ◌∷◌, arith}
use substrate_recipes.Mock.{mock_frame}
use substrate_recipes.Mock.Members.{vec_members, vec_members-IsValid}
use substrate_recipes.VecSet.Order.{join_all, join_all_same}

join_all_same_example :
    (join_all mock_frame some (5 ∷ 1 ∷ 5 ∷ []) vec_members).members
    ≡ (join_all mock_frame some (1 ∷ 5 ∷ []) vec_members).members
join_all_same_example =
    join_all_same mock_frame some (λ who. refl) (5 ∷ 1 ∷ 5 ∷ []) (1 ∷ 5 ∷ []) vec_members
      vec_members-IsValid (omega arith) (omega arith) (λ j. ground arith)
