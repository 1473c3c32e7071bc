-- ===== src/Callers/DefaultInstance.antt =====
-- The pallet that keeps its last caller (pallets/default-instance/src/lib.rs).
use substrate_recipes.Prelude.{ℕ, List, [], ◌∷◌, ◌++◌}
use substrate_recipes.Frame.{Frame, Call, signed, modify, ◌>>=◌, ◌>>◌}

pub data Event : Type 0 where
  called : ℕ → Event

-- `Caller`, and the events deposited so far.
pub record State : Type 0 where
  pub caller : ℕ
  pub events : List Event

abbrev deposit_event : Event → State → State
deposit_event e s = record s { events = s.events ++ (e ∷ []) }

unfoldable pub call : {Origin : Type 0} → Frame Origin → Origin → Call State ⊥ (Unit {0})
call frame origin = do
  caller ← signed frame origin
  modify λ s. record s { caller = caller }
  modify (deposit_event (called caller))
