-- ===== src/VecSet/Order.antt =====
-- What the vector set stores depends on who has joined, and not on the order of the calls.
use substrate_recipes.Prelude.{
  ℕ, ◌+◌, ◌≤◌, ◌≡◌, refl, sym, ap, ◌∙◌, List, [], ◌∷◌, some, ◌||◌, length, arith, lt→ltb,
}
use substrate_recipes.Frame.{Frame}
use substrate_recipes.SortedVec.{contains}
use substrate_recipes.SortedVec.Canonical.{SameMembers, IsSorted-ext}
use substrate_recipes.VecSet.{State, max_members, add_member}
use substrate_recipes.VecSet.Members.{IsValid, is_member, add_member_lem}

module _ {Origin : Type 0} (frame : Frame Origin) (signs : ℕ → Origin) where
  -- The calls of some accounts to join, one after the other.
  unfoldable pub join_all : List ℕ → State → State
  join_all [] s = s
  join_all (who ∷ whos) s = join_all whos (add_member frame (signs who) s).1

  module _ (h : (who : ℕ) → frame.ensure_signed (signs who) ≡ some who) where
    -- Where there is room for all, those who were in and those who joined are the members.
    joined :
        (whos : List ℕ) (s : State)
        → IsValid s
        → length s.members + length whos ≤ max_members
        → IsValid (join_all whos s)
          × ((j : ℕ) → is_member j (join_all whos s) ≡ (contains j whos || is_member j s))
    unfolding join_all
    joined [] s v room = (v, λ j. refl)
    joined (who ∷ whos) s v room =
        let (_, members, size, _, v') = add_member_lem frame (signs who) who s (h who) v in
        let (v'', same) =
          joined whos (add_member frame (signs who) s).1 v' (ground (arith, size)) in
        (v'', λ j. ground (arith, same j, members j, lt→ltb (length s.members) max_members))

    -- From a valid set, where each account signs for itself and the set has room for all the calls:
    -- the same accounts join in any order, as often as they like, and the set comes to store the
    -- same vector.
    pub join_all_same :
        (whos others : List ℕ) (s : State)
        → IsValid s
        → length s.members + length whos ≤ max_members
        → length s.members + length others ≤ max_members
        → SameMembers whos others
        → (join_all whos s).members ≡ (join_all others s).members
    join_all_same whos others s v room room' same =
        let (v₁, m₁) = joined whos s v room in
        let (v₂, m₂) = joined others s v room' in
        IsSorted-ext (join_all whos s).members (join_all others s).members v₁.sorted v₂.sorted
          (λ j. m₁ j ∙ ap (λ b. b || is_member j s) (same j) ∙ sym (m₂ j))
