-- ===== src/DoubleMap.antt =====
-- The double-map pallet (pallets/double-map/src/lib.rs): members, their groups, and their scores by
-- group and member.
pub mod Groups
mod Tests
use substrate_recipes.Prelude.{
  ℕ, Bool, true, false, Option, none, some, List, [], ◌∷◌, ◌++◌, not, unwrap_or, ◌==◌, ◌&&◌,
  if◌then◌else◌,
}
use substrate_recipes.Frame.{Frame, Call, signed, gets, ensure, modify, other, ◌>>=◌, ◌>>◌}
use substrate_recipes.Frame.Storage.{StorageMap, insert, remove}
use substrate_recipes.SortedVec.{contains}

pub data Event : Type 0 where
  new_member remove_member_event remove_group : ℕ → Event
  member_joins_group : ℕ → ℕ → ℕ → Event

-- `MemberScore`, `GroupMembership`, `AllMembers`, and the events deposited so far.
pub record State : Type 0 where
  pub member_score : ℕ → StorageMap ℕ
  pub group_membership : StorageMap ℕ
  pub all_members : List ℕ
  pub events : List Event

abbrev deposit_event : Event → State → State
deposit_event e s = record s { events = s.events ++ (e ∷ []) }

-- `StorageDoubleMap::insert`, `remove` and `remove_prefix`.
abbrev pub insert_score : ℕ → ℕ → ℕ → (ℕ → StorageMap ℕ) → ℕ → StorageMap ℕ
insert_score g k v m g' k' = if g' == g && k' == k then some v else m g' k'

abbrev pub remove_score : ℕ → ℕ → (ℕ → StorageMap ℕ) → ℕ → StorageMap ℕ
remove_score g k m g' k' = if g' == g && k' == k then none else m g' k'

abbrev pub remove_prefix : ℕ → (ℕ → StorageMap ℕ) → ℕ → StorageMap ℕ
remove_prefix g m g' k' = if g' == g then none else m g' k'

abbrev pub is_member : ℕ → State → Bool
is_member who s = contains who s.all_members

-- The group of a member; a missing entry reads as the group 0.
abbrev pub group_of : ℕ → State → ℕ
group_of who s = unwrap_or (s.group_membership who) 0

module _ {Origin : Type 0} (frame : Frame Origin) where
  pub join_all_members : Origin → Call State ⊥ (Unit {0})
  join_all_members origin = do
    who ← signed frame origin
    already ← gets (is_member who)
    ensure (not already) (other "already a member, can't join")
    modify λ s. record s { all_members = s.all_members ++ (who ∷ []) }
    modify (deposit_event (new_member who))

  pub join_a_group : Origin → ℕ → ℕ → Call State ⊥ (Unit {0})
  join_a_group origin index score = do
    member ← signed frame origin
    known ← gets (is_member member)
    ensure known (other "not a member, can't remove")
    modify λ s. record s { member_score = insert_score index member score s.member_score }
    modify λ s. record s { group_membership = insert member index s.group_membership }
    modify (deposit_event (member_joins_group member index score))

  pub remove_member : Origin → Call State ⊥ (Unit {0})
  remove_member origin = do
    member_to_remove ← signed frame origin
    known ← gets (is_member member_to_remove)
    ensure known (other "not a member, can't remove")
    group_id ← gets (group_of member_to_remove)
    modify λ s. record s { group_membership = remove member_to_remove s.group_membership }
    modify λ s. record s { member_score = remove_score group_id member_to_remove s.member_score }
    modify (deposit_event (remove_member_event member_to_remove))

  pub remove_group_score : Origin → ℕ → Call State ⊥ (Unit {0})
  remove_group_score origin group = do
    member ← signed frame origin
    group_id ← gets (group_of member)
    ensure (group_id == group) (other "member isn't in the group, can't remove it")
    modify λ s. record s { member_score = remove_prefix group_id s.member_score }
    modify (deposit_event (remove_group group_id))
