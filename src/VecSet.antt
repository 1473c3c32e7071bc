-- ===== src/VecSet.antt =====
-- The membership set over a sorted vector (pallets/vec-set/src/lib.rs).
pub mod Members
pub mod Order
mod Tests
use substrate_recipes.Prelude.{ℕ, List, [], ◌∷◌, ◌++◌, length, ltb, Bool, true, false}
use substrate_recipes.Frame.{
  Frame, Call, signed, gets, ensure, fail, modify, module_error, ◌>>=◌, ◌>>◌,
}
use substrate_recipes.SortedVec.{Found, at, missing, binary_search, insert_at, remove_at, collect}

pub data Event : Type 0 where
  member_added member_removed : ℕ → Event

pub data Error : Type 0 where
  already_member not_member membership_limit_reached : Error

-- `Members`, and the events deposited so far.
pub record State : Type 0 where
  pub members : List ℕ
  pub events : List Event

abbrev pub max_members : ℕ
max_members = 16

abbrev deposit_event : Event → State → State
deposit_event e s = record s { events = s.events ++ (e ∷ []) }

abbrev put_members : List ℕ → State → State
put_members members s = record s { members = members }

-- The match on the search in `add_member` and in `remove_member`.
abbrev insert_found : ℕ → List ℕ → Found → Call State Error (Unit {0})
insert_found new_member members (at i) = fail (module_error already_member)
insert_found new_member members (missing i) = do
  modify (put_members (insert_at i new_member members))
  modify (deposit_event (member_added new_member))

abbrev remove_found : ℕ → List ℕ → Found → Call State Error (Unit {0})
remove_found old_member members (at i) = do
  modify (put_members (remove_at i members))
  modify (deposit_event (member_removed old_member))
remove_found old_member members (missing i) = fail (module_error not_member)

module _ {Origin : Type 0} (frame : Frame Origin) where
  unfoldable pub add_member : Origin → Call State Error (Unit {0})
  add_member origin = do
    new_member ← signed frame origin
    members ← gets (λ s. s.members)
    ensure (ltb (length members) max_members) (module_error membership_limit_reached)
    insert_found new_member members (binary_search members new_member)

  unfoldable pub remove_member : Origin → Call State Error (Unit {0})
  remove_member origin = do
    old_member ← signed frame origin
    members ← gets (λ s. s.members)
    remove_found old_member members (binary_search members old_member)

-- `AccountSet::accounts`
unfoldable pub accounts : State → List ℕ
accounts s = collect s.members
