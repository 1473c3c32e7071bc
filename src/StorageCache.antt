-- ===== src/StorageCache.antt =====
-- The storage-cache pallet (pallets/storage-cache/src/lib.rs): each update once with a second read
-- of the storage and once with a copy of the first.
pub mod Equal
use substrate_recipes.Prelude.{ℕ, Bool, true, false, List, [], ◌∷◌, ◌++◌, not}
use substrate_recipes.Prelude.Words.{checked_add}
use substrate_recipes.Frame.{Frame, Call, signed, gets, ensure, ok_or, modify, other, ◌>>=◌, ◌>>◌}
use substrate_recipes.SortedVec.{contains}

pub data Event : Type 0 where
  inefficient_value_change better_value_change inefficient_king_swap better_king_swap :
      ℕ → ℕ → Event

-- `SomeCopyValue`, `KingMember`, `GroupMembers`, and the events deposited so far.
pub record State : Type 0 where
  pub some_copy_value : ℕ
  pub king_member : ℕ
  pub group_members : List ℕ
  pub events : List Event

abbrev deposit_event : Event → State → State
deposit_event e s = record s { events = s.events ++ (e ∷ []) }

abbrev pub is_member : ℕ → State → Bool
is_member who s = contains who s.group_members

-- The pallet declares no errors of its own.
module _ {Origin : Type 0} (frame : Frame Origin) where
  pub increase_value_no_cache : ℕ → Origin → ℕ → Call State ⊥ (Unit {0})
  increase_value_no_cache now origin some_val = do
    signed frame origin
    original_call ← gets (λ s. s.some_copy_value)
    some_calculation ← ok_or (checked_add 32 original_call some_val) (other "addition overflowed1")
    unnecessary_call ← gets (λ s. s.some_copy_value)
    another_calculation ←
        ok_or (checked_add 32 some_calculation unnecessary_call) (other "addition overflowed2")
    modify λ s. record s { some_copy_value = another_calculation }
    modify (deposit_event (inefficient_value_change another_calculation now))

  pub increase_value_w_copy : ℕ → Origin → ℕ → Call State ⊥ (Unit {0})
  increase_value_w_copy now origin some_val = do
    signed frame origin
    original_call ← gets (λ s. s.some_copy_value)
    some_calculation ← ok_or (checked_add 32 original_call some_val) (other "addition overflowed1")
    another_calculation ←
        ok_or (checked_add 32 some_calculation original_call) (other "addition overflowed2")
    modify λ s. record s { some_copy_value = another_calculation }
    modify (deposit_event (better_value_change another_calculation now))

  pub swap_king_no_cache : Origin → Call State ⊥ (Unit {0})
  swap_king_no_cache origin = do
    new_king ← signed frame origin
    existing_king ← gets (λ s. s.king_member)
    existing_is_member ← gets (is_member existing_king)
    ensure (not existing_is_member) (other "current king is a member so maintains priority")
    new_is_member ← gets (is_member new_king)
    ensure new_is_member (other "new king is not a member so doesn't get priority")
    old_king ← gets (λ s. s.king_member)
    modify λ s. record s { king_member = new_king }
    modify (deposit_event (inefficient_king_swap old_king new_king))

  pub swap_king_with_cache : Origin → Call State ⊥ (Unit {0})
  swap_king_with_cache origin = do
    new_king ← signed frame origin
    existing_king ← gets (λ s. s.king_member)
    let old_king = existing_king
    existing_is_member ← gets (is_member existing_king)
    ensure (not existing_is_member) (other "current king is a member so maintains priority")
    new_is_member ← gets (is_member new_king)
    ensure new_is_member (other "new king is not a member so doesn't get priority")
    modify λ s. record s { king_member = new_king }
    modify (deposit_event (better_king_swap old_king new_king))

  pub set_copy : Origin → ℕ → Call State ⊥ (Unit {0})
  set_copy origin val = do signed frame origin; modify λ s. record s { some_copy_value = val }

  pub set_king : Origin → Call State ⊥ (Unit {0})
  set_king origin = do user ← signed frame origin; modify λ s. record s { king_member = user }

  pub mock_add_member : Origin → Call State ⊥ (Unit {0})
  mock_add_member origin = do
    added ← signed frame origin
    already ← gets (is_member added)
    ensure (not already) (other "member already in group")
    modify λ s. record s { group_members = s.group_members ++ (added ∷ []) }
