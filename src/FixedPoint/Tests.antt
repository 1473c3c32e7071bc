-- ===== src/FixedPoint/Tests.antt =====
-- The manual accumulator at one and a half times one and a half.
use substrate_recipes.Prelude.{◌+◌, ◌*◌, ◌^◌, ◌≤◌, ◌<◌, refl, true, some, [], arith}
use substrate_recipes.Mock.{mock_frame}
use substrate_recipes.FixedPoint.{State, update_manual}
use substrate_recipes.FixedPoint.Manual.{update_manual_rounds}

abbrev one_and_a_half : State
one_and_a_half = record {
  permill_value = 1000000;
  fixed_value = 65536;
  manual_value = 98304;
  events = [];
}

update_manual_rounds_example :
    let s' = (update_manual mock_frame true (some 1) 98304 one_and_a_half).1 in
    (s'.manual_value * 65536 ≤ 98304 * 98304)
    × (98304 * 98304 < s'.manual_value * 65536 + 65536)
    × (s'.manual_value < 2 ^ 32)
update_manual_rounds_example =
    update_manual_rounds mock_frame true (some 1) 1 98304 one_and_a_half refl (omega arith)
      (omega arith) (omega arith)
