-- ===== src/CheckMembership/Agree.antt =====
-- The loose check behaves like the tight one over a valid vector set, and gives the same answer over
-- a map set that holds the same members.
use substrate_recipes.Prelude.{
  ℕ, ◌≡◌, List, [], ◌∷◌, ◌++◌, some, refl, Bool-cases, Option-cases, inl, inr, if◌then◌else◌, ◌∙◌,
}
use substrate_recipes.Frame.{Frame, ok, err, module_error}
use substrate_recipes.SortedVec.{contains}
use substrate_recipes.SortedVec.Search.{binary_search_lem}
use substrate_recipes.SortedVec.Update.{contains-collect}
use substrate_recipes.VecSet
use substrate_recipes.VecSet.Members
use substrate_recipes.MapSet
use substrate_recipes.MapSet.Agree.{Agree}
use substrate_recipes.CheckMembership.{
  AccountSet, State, Event, is_a_member, not_a_member, check_membership_tight,
  check_membership_loose,
}

-- `impl AccountSet for Module` of the two pallets.
abbrev pub vec_accounts : AccountSet VecSet.State
vec_accounts = record { accounts = VecSet.accounts }

abbrev pub map_accounts : AccountSet MapSet.State
map_accounts = record { accounts = MapSet.accounts }

pub contains-vec_accounts :
    (k : ℕ) (v : VecSet.State) → contains k (VecSet.accounts v) ≡ contains k v.members
unfolding VecSet.accounts
contains-vec_accounts k v = contains-collect k v.members

contains-map_accounts :
    (k : ℕ) (m : MapSet.State) → contains k (MapSet.accounts m) ≡ contains k m.members
unfolding MapSet.accounts
contains-map_accounts k m = contains-collect k m.members

module _ {Origin : Type 0} (frame : Frame Origin) where
  -- Over a valid vector set the binary search of the tight check and the ordered set of the loose
  -- one always give the same outcome and the same storage.
  pub tight_eq_loose :
      (origin : Origin) (s : State VecSet.State)
      → Members.IsValid s.source
      → check_membership_tight frame origin s ≡ check_membership_loose frame vec_accounts origin s
  unfolding check_membership_tight check_membership_loose
  tight_eq_loose origin s v = elim (Option-cases (frame.ensure_signed origin)) [
    | inl e ↦ rw e
    | inr (who, e) ↦
        let c = contains-vec_accounts who s.source in
        elim (Bool-cases (contains who s.source.members)) [
          | inl there ↦ rw (e, binary_search_lem who s.source.members v.sorted, c, there)
          | inr missing_there ↦
              rw (e, binary_search_lem who s.source.members v.sorted, c, missing_there)
        ]
  ]

  -- Over a valid vector set and a valid map set that hold the same members, and the same events so
  -- far, the loose check gives the same outcome and events, and leaves both sets as they are.
  pub source_independent :
      (origin : Origin) (v : VecSet.State) (m : MapSet.State) (events : List Event)
      → Agree v m
      → let (r, s) =
          check_membership_loose frame vec_accounts origin
            (record { source = v; events = events }) in
        let (r', s') =
          check_membership_loose frame map_accounts origin
            (record { source = m; events = events }) in
        (r ≡ r') × (s.events ≡ s'.events) × (s.source ≡ v) × (s'.source ≡ m)
  unfolding check_membership_loose
  source_independent origin v m events a = elim (Option-cases (frame.ensure_signed origin)) [
    | inl e ↦ rw e (refl, refl, refl, refl)
    | inr (who, e) ↦
        let c = contains-vec_accounts who v ∙ a.same_members who in
        let c' = contains-map_accounts who m in
        elim (Bool-cases (contains who m.members)) [
          | inl there ↦ rw (e, c, c', there) (refl, refl, refl, refl)
          | inr missing_there ↦ rw (e, c, c', missing_there) (refl, refl, refl, refl)
        ]
  ]

  -- The check lets a signed caller through, and reports it, exactly where it is in the set.
  pub check_membership_loose_lem :
      {Source : Type 0} (a : AccountSet Source) (origin : Origin) (who : ℕ) (s : State Source)
      → frame.ensure_signed origin ≡ some who
      → let member = contains who (a.accounts s.source) in
        check_membership_loose frame a origin s ≡ (
          if member then ok tt else err (module_error not_a_member),
          record s { events = if member then s.events ++ (is_a_member who ∷ []) else s.events },
        )
  unfolding check_membership_loose
  check_membership_loose_lem a origin who s e =
      elim (Bool-cases (contains who (a.accounts s.source))) [
        | inl there ↦ rw (e, there)
        | inr missing_there ↦ rw (e, missing_there)
      ]
