-- ===== src/Callers/Emitters.antt =====
-- The pallets whose call emits an event (pallets/simple-event/src/lib.rs,
-- pallets/generic-event/src/lib.rs), and the one that only prints (pallets/hello-substrate/src/lib.rs).
use substrate_recipes.Prelude.{ℕ, List, [], ◌∷◌, ◌++◌}
use substrate_recipes.Frame.{Frame, Call, signed, modify, pure, ◌>>=◌}

pub data SimpleEvent : Type 0 where
  simple_input : ℕ → SimpleEvent

pub data GenericEvent : Type 0 where
  generic_input : ℕ → ℕ → GenericEvent

module _ {Origin : Type 0} (frame : Frame Origin) where
  unfoldable pub do_something_simple : Origin → ℕ → Call (List SimpleEvent) ⊥ (Unit {0})
  do_something_simple origin input = do
    who ← signed frame origin
    let new_number = input
    modify λ events. events ++ (simple_input new_number ∷ [])

  unfoldable pub do_something_generic : Origin → ℕ → Call (List GenericEvent) ⊥ (Unit {0})
  do_something_generic origin input = do
    user ← signed frame origin
    let new_number = input
    modify λ events. events ++ (generic_input user new_number ∷ [])

  unfoldable pub say_hello : {S : Type 0} → Origin → Call S ⊥ (Unit {0})
  say_hello origin = do caller ← signed frame origin; pure tt
