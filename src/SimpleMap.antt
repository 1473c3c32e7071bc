-- ===== src/SimpleMap.antt =====
-- The map pallet (pallets/simple-map/src/lib.rs): one entry for each user.
pub mod Entries
use substrate_recipes.Prelude.{
  ℕ, Bool, true, false, Option, none, some, List, [], ◌∷◌, ◌++◌, unwrap_or, is_some,
}
use substrate_recipes.Prelude.Words.{checked_add}
use substrate_recipes.Frame.{
  Frame, Call, signed, gets, ensure, ok_or, modify, module_error, ◌>>=◌, ◌>>◌,
}
use substrate_recipes.Frame.Storage.{StorageMap, insert, remove}

pub data Event : Type 0 where
  entry_set entry_got entry_taken : ℕ → ℕ → Event
  entry_increased : ℕ → ℕ → ℕ → Event

pub data Error : Type 0 where
  no_value_stored max_value_reached : Error

pub record State : Type 0 where
  pub simple_map : StorageMap ℕ
  pub events : List Event

abbrev deposit_event : Event → State → State
deposit_event e s = record s { events = s.events ++ (e ∷ []) }

-- `contains_key` and `get` of the map.
abbrev pub contains_key : ℕ → State → Bool
contains_key k s = is_some (s.simple_map k)

abbrev pub get : ℕ → State → ℕ
get k s = unwrap_or (s.simple_map k) 0

module _ {Origin : Type 0} (frame : Frame Origin) where
  pub set_single_entry : Origin → ℕ → Call State Error (Unit {0})
  set_single_entry origin entry = do
    user ← signed frame origin
    modify λ s. record s { simple_map = insert user entry s.simple_map }
    modify (deposit_event (entry_set user entry))

  pub get_single_entry : Origin → ℕ → Call State Error (Unit {0})
  get_single_entry origin account = do
    getter ← signed frame origin
    stored ← gets (contains_key account)
    ensure stored (module_error no_value_stored)
    entry ← gets (get account)
    modify (deposit_event (entry_got getter entry))

  pub take_single_entry : Origin → Call State Error (Unit {0})
  take_single_entry origin = do
    user ← signed frame origin
    stored ← gets (contains_key user)
    ensure stored (module_error no_value_stored)
    entry ← gets (get user)
    modify λ s. record s { simple_map = remove user s.simple_map }
    modify (deposit_event (entry_taken user entry))

  pub increase_single_entry : Origin → ℕ → Call State Error (Unit {0})
  increase_single_entry origin add_this_val = do
    user ← signed frame origin
    stored ← gets (contains_key user)
    ensure stored (module_error no_value_stored)
    original_value ← gets (get user)
    new_value ← ok_or (checked_add 32 original_value add_this_val) (module_error max_value_reached)
    modify λ s. record s { simple_map = insert user new_value s.simple_map }
    modify (deposit_event (entry_increased user original_value new_value))
