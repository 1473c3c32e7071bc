-- ===== src/VecSet/Members.antt =====
-- The calls of the vector set do to the set of members what they say, and keep the vector sorted
-- and within its limit.
use substrate_recipes.Prelude.{
  ℕ, ◌+◌, ◌-◌, ◌≤◌, ◌≡◌, [], ◌∷◌, ◌++◌, length, ltb, Bool, not, ◌&&◌, ◌||◌, ◌==◌, if◌then◌else◌,
  arith, some, refl, Bool-cases, inl, inr,
}
use substrate_recipes.Frame.{Frame, Outcome, ok, err, module_error}
use substrate_recipes.SortedVec.{contains, IsSorted}
use substrate_recipes.SortedVec.Rank.{rank}
use substrate_recipes.SortedVec.Search.{binary_search_lem}
use substrate_recipes.SortedVec.Update.{
  insert_at-IsSorted, contains-insert_at, length-insert_at, remove_at-IsSorted, contains-remove_at,
  length-remove_at,
}
use substrate_recipes.VecSet.{
  State, Error, member_added, member_removed, already_member, not_member, membership_limit_reached,
  max_members, add_member, remove_member,
}

pub record IsValid (s : State) : Type 0 where
  pub sorted : IsSorted s.members
  pub bounded : length s.members ≤ max_members

abbrev pub is_member : ℕ → State → Bool
is_member j s = contains j s.members

-- How `add_member` and `remove_member` end, by the number of members and by who is one.
abbrev pub add_outcome : ℕ → Bool → Outcome Error (Unit {0})
add_outcome size member =
    if ltb size max_members
    then if member then err (module_error already_member) else ok tt
    else err (module_error membership_limit_reached)

abbrev pub remove_outcome : Bool → Outcome Error (Unit {0})
remove_outcome member = if member then ok tt else err (module_error not_member)

module _ {Origin : Type 0} (frame : Frame Origin) where
  -- Over a valid set, a signed origin becomes a member exactly where there is room and it is none
  -- yet; that is then the only change to the set, which stays valid, and is reported. Otherwise the
  -- error says why, and nothing changes.
  pub add_member_lem :
      (origin : Origin) (who : ℕ) (s : State)
      → frame.ensure_signed origin ≡ some who
      → IsValid s
      → let (r, s') = add_member frame origin s in
        let accepted = ltb (length s.members) max_members && not (is_member who s) in
        (r ≡ add_outcome (length s.members) (is_member who s))
        × ((j : ℕ)
            → is_member j s' ≡ (if accepted then who == j || is_member j s else is_member j s))
        × (length s'.members ≡ (if accepted then length s.members + 1 else length s.members))
        × (s'.events ≡ (if accepted then s.events ++ (member_added who ∷ []) else s.events))
        × IsValid s'
  unfolding add_member
  add_member_lem origin who s e v = elim (Bool-cases (ltb (length s.members) max_members)) [
    | inr full ↦ rw (e, full) (refl, λ j. refl, refl, refl, v)
    | inl room ↦ elim (Bool-cases (contains who s.members)) [
      | inl old ↦
          rw (e, room, binary_search_lem who s.members v.sorted, old)
            (refl, λ j. refl, refl, refl, v)
      | inr new ↦
          rw (e, room, binary_search_lem who s.members v.sorted, new)
            (
              refl,
              λ j. contains-insert_at j who (rank who s.members) s.members,
              length-insert_at who (rank who s.members) s.members,
              refl,
              record {
                sorted = insert_at-IsSorted who s.members v.sorted new;
                bounded = ground (arith, length-insert_at who (rank who s.members) s.members);
              },
            )
    ]
  ]

  -- Over a valid set, a signed origin that is a member leaves the set; that is the only change to
  -- it, it stays valid, and the removal is reported. An origin that is no member gets the error,
  -- and nothing changes.
  pub remove_member_lem :
      (origin : Origin) (who : ℕ) (s : State)
      → frame.ensure_signed origin ≡ some who
      → IsValid s
      → let (r, s') = remove_member frame origin s in
        let accepted = is_member who s in
        (r ≡ remove_outcome (is_member who s))
        × ((j : ℕ)
            → is_member j s'
              ≡ (if accepted then not (who == j) && is_member j s else is_member j s))
        × (length s'.members ≡ (if accepted then length s.members - 1 else length s.members))
        × (s'.events ≡ (if accepted then s.events ++ (member_removed who ∷ []) else s.events))
        × IsValid s'
  unfolding remove_member
  remove_member_lem origin who s e v = elim (Bool-cases (contains who s.members)) [
    | inr none_there ↦
        rw (e, binary_search_lem who s.members v.sorted, none_there)
          (refl, λ j. refl, refl, refl, v)
    | inl there ↦
        let n = length-remove_at who s.members there v.sorted in
        rw (e, binary_search_lem who s.members v.sorted, there)
          (
            refl,
            λ j. contains-remove_at j who s.members v.sorted there,
            omega (arith, n),
            refl,
            record {
              sorted = remove_at-IsSorted (rank who s.members) s.members v.sorted;
              bounded = omega (arith, n, v.bounded);
            },
          )
  ]
