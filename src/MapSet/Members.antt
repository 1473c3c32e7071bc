-- ===== src/MapSet/Members.antt =====
-- The calls of the map set do to the set of members what they say, and the count stays right.
use substrate_recipes.Prelude.{
  ℕ, ◌+◌, ◌-◌, ◌≤◌, ◌≡◌, List, [], ◌∷◌, ◌++◌, length, ltb, Bool, true, false, not, ◌&&◌, ◌||◌, ◌==◌,
  if◌then◌else◌, arith, some, refl, Bool-cases, inl, inr, lt→ltb, le→ltb, ◌^◌,
}
use substrate_recipes.Frame.{Frame}
use substrate_recipes.SortedVec.{contains}
use substrate_recipes.VecSet
use substrate_recipes.VecSet.Members.{add_outcome, remove_outcome}
use substrate_recipes.MapSet.{State, max_members, remove_key, add_member, remove_member}

-- No key is listed twice.
abbrev pub IsKeyed : List ℕ → Type 0
IsKeyed [] = Unit
IsKeyed (k ∷ keys) = (contains k keys ≡ false) × IsKeyed keys

pub record IsValid (s : State) : Type 0 where
  pub keyed : IsKeyed s.members
  pub counted : s.member_count ≡ length s.members
  pub bounded : s.member_count ≤ max_members

contains-remove_key :
    (j k : ℕ) (keys : List ℕ)
    → IsKeyed keys
    → contains j (remove_key k keys) ≡ (not (k == j) && contains j keys)
contains-remove_key j k [] v = ground arith
contains-remove_key j k (i ∷ keys) v = ground (arith, contains-remove_key j k keys v.1)

length-remove_key :
    (k : ℕ) (keys : List ℕ) → contains k keys ≡ true → length (remove_key k keys) + 1 ≡ length keys
length-remove_key k [] h = cc
length-remove_key k (i ∷ keys) h = ground (arith, length-remove_key k keys)

remove_key-IsKeyed : (k : ℕ) (keys : List ℕ) → IsKeyed keys → IsKeyed (remove_key k keys)
remove_key-IsKeyed k [] v = tt
remove_key-IsKeyed k (i ∷ keys) v =
    ground (arith, remove_key-IsKeyed k keys v.1, contains-remove_key i k keys v.1)

abbrev pub is_member : ℕ → State → Bool
is_member j s = contains j s.members

module _ {Origin : Type 0} (overflow_checks : Bool) (frame : Frame Origin) where
  -- The calls of the map set meet the same specification as those of the vector set: the count in
  -- place of the length, and no arithmetic that panics or wraps.
  pub add_member_lem :
      (origin : Origin) (who : ℕ) (s : State)
      → frame.ensure_signed origin ≡ some who
      → IsValid s
      → let (r, s') = add_member overflow_checks frame origin s in
        let accepted = ltb s.member_count max_members && not (is_member who s) in
        (r ≡ add_outcome s.member_count (is_member who s))
        × ((j : ℕ)
            → is_member j s' ≡ (if accepted then who == j || is_member j s else is_member j s))
        × (s'.member_count ≡ (if accepted then s.member_count + 1 else s.member_count))
        × (s'.events ≡ (if accepted then s.events ++ (VecSet.member_added who ∷ []) else s.events))
        × IsValid s'
  unfolding add_member
  add_member_lem origin who s e v = elim (Bool-cases (ltb s.member_count max_members)) [
    | inr full ↦ rw (e, full) (refl, λ j. refl, refl, refl, v)
    | inl room ↦ elim (Bool-cases (contains who s.members)) [
      | inl old ↦ rw (e, room, old) (refl, λ j. refl, refl, refl, v)
      | inr new ↦
          rw (e, room, new)
            (rw (lt→ltb (s.member_count + 1) (2 ^ 32) (ground arith)) (
              refl,
              λ j. rw new refl,
              refl,
              refl,
              record {
                keyed = rw new (new, v.keyed);
                counted = rw new (omega (arith, v.counted));
                bounded = ground arith;
              },
            ))
    ]
  ]

  pub remove_member_lem :
      (origin : Origin) (who : ℕ) (s : State)
      → frame.ensure_signed origin ≡ some who
      → IsValid s
      → let (r, s') = remove_member overflow_checks frame origin s in
        let accepted = is_member who s in
        (r ≡ remove_outcome (is_member who s))
        × ((j : ℕ)
            → is_member j s'
              ≡ (if accepted then not (who == j) && is_member j s else is_member j s))
        × (s'.member_count ≡ (if accepted then s.member_count - 1 else s.member_count))
        × (s'.events
            ≡ (if accepted then s.events ++ (VecSet.member_removed who ∷ []) else s.events))
        × IsValid s'
  unfolding remove_member
  remove_member_lem origin who s e v = elim (Bool-cases (contains who s.members)) [
    | inr none_there ↦ rw (e, none_there) (refl, λ j. refl, refl, refl, v)
    | inl there ↦
        let n = length-remove_key who s.members there in
        rw (e, there)
          (rw (le→ltb s.member_count 1 (omega (arith, n, v.counted))) (
            refl,
            λ j. contains-remove_key j who s.members v.keyed,
            refl,
            refl,
            record {
              keyed = remove_key-IsKeyed who s.members v.keyed;
              counted = omega (arith, n, v.counted);
              bounded = omega (arith, v.bounded);
            },
          ))
  ]
