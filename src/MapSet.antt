-- ===== src/MapSet.antt =====
-- The membership set over a storage map (pallets/map-set/src/lib.rs). The map to `()` is the list
-- of its keys, in the order in which it is iterated; a new key may come anywhere in it, here first.
pub mod Accounts
pub mod Agree
pub mod Members
mod Tests
use substrate_recipes.Prelude.{
  ℕ, List, [], ◌∷◌, ◌++◌, ltb, Bool, true, false, not, ◌==◌, if◌then◌else◌,
}
use substrate_recipes.Prelude.Words.{plain_add, plain_sub}
use substrate_recipes.Frame.{
  Frame, Call, signed, gets, ensure, expect, modify, module_error, ◌>>=◌, ◌>>◌,
}
use substrate_recipes.SortedVec.{contains, collect}
use substrate_recipes.VecSet

-- The same enums as in the vector set.
abbrev pub Event : Type 0
Event = VecSet.Event

abbrev pub Error : Type 0
Error = VecSet.Error

-- `Members`, `MemberCount`, and the events deposited so far.
pub record State : Type 0 where
  pub members : List ℕ
  pub member_count : ℕ
  pub events : List Event

abbrev pub max_members : ℕ
max_members = 16

abbrev pub insert_key : ℕ → List ℕ → List ℕ
insert_key k keys = if contains k keys then keys else k ∷ keys

abbrev pub remove_key : ℕ → List ℕ → List ℕ
remove_key k [] = []
remove_key k (j ∷ keys) = if j == k then keys else j ∷ remove_key k keys

abbrev deposit_event : Event → State → State
deposit_event e s = record s { events = s.events ++ (e ∷ []) }

module _ {Origin : Type 0} (overflow_checks : Bool) (frame : Frame Origin) where
  unfoldable pub add_member : Origin → Call State Error (Unit {0})
  add_member origin = do
    new_member ← signed frame origin
    member_count ← gets (λ s. s.member_count)
    ensure (ltb member_count max_members) (module_error VecSet.membership_limit_reached)
    is_key ← gets (λ s. contains new_member s.members)
    ensure (not is_key) (module_error VecSet.already_member)
    modify λ s. record s { members = insert_key new_member s.members }
    count ← expect (plain_add 32 overflow_checks member_count 1)
    modify λ s. record s { member_count = count }
    modify (deposit_event (VecSet.member_added new_member))

  unfoldable pub remove_member : Origin → Call State Error (Unit {0})
  remove_member origin = do
    old_member ← signed frame origin
    is_key ← gets (λ s. contains old_member s.members)
    ensure is_key (module_error VecSet.not_member)
    modify λ s. record s { members = remove_key old_member s.members }
    member_count ← gets (λ s. s.member_count)
    count ← expect (plain_sub 32 overflow_checks member_count 1)
    modify λ s. record s { member_count = count }
    modify (deposit_event (VecSet.member_removed old_member))

-- `AccountSet::accounts`
unfoldable pub accounts : State → List ℕ
accounts s = collect s.members
