-- ===== src/DoubleMap/Groups.antt =====
-- What the calls do to groups, scores and members.
use substrate_recipes.Prelude.{
  ℕ, ◌≡◌, ◌≢◌, refl, true, false, none, some, List, [], ◌∷◌, ◌++◌, arith, ◌==◌, ◌&&◌, ◌||◌,
  if◌then◌else◌,
}
use substrate_recipes.Frame.{Frame, ok, err, other}
use substrate_recipes.SortedVec.{contains}
use substrate_recipes.DoubleMap.{
  State, is_member, group_of, join_all_members, join_a_group, remove_member, remove_group_score,
}

contains-append :
    (k : ℕ) (xs ys : List ℕ) → contains k (xs ++ ys) ≡ (contains k xs || contains k ys)
contains-append k [] ys = refl
contains-append k (x ∷ xs) ys = ground (arith, contains-append k xs ys)

module _ {Origin : Type 0} (frame : Frame Origin) where
  -- After a first join of the pallet and a join of a group, the member is known, is in that group
  -- and has that score there; a second join of the pallet fails and changes nothing.
  pub join_lem :
      (origin : Origin) (who group score : ℕ) (s : State)
      → frame.ensure_signed origin ≡ some who
      → is_member who s ≡ false
      → let (r, s1) = join_all_members frame origin s in
        let (r', s2) = join_a_group frame origin group score s1 in
        (r ≡ ok tt)
        × (r' ≡ ok tt)
        × (is_member who s2 ≡ true)
        × (group_of who s2 ≡ group)
        × (s2.member_score group who ≡ some score)
        × (join_all_members frame origin s2 ≡ (err (other "already a member, can't join"), s2))
  unfolding join_all_members join_a_group
  join_lem origin who group score s e new =
      ground (arith, contains-append who s.all_members (who ∷ []))

  -- A signed member that is removed gets ok and loses the group and the score there; no other score
  -- and no other group changes, and neither does the list of all members, so the caller still is a
  -- member.
  pub remove_member_forgets :
      (origin : Origin) (who : ℕ) (s : State)
      → frame.ensure_signed origin ≡ some who
      → is_member who s ≡ true
      → let (r, s') = remove_member frame origin s in
        (r ≡ ok tt)
        × ((g k : ℕ)
            → s'.member_score g k
              ≡ (if g == group_of who s && k == who then none else s.member_score g k))
        × ((k : ℕ) → s'.group_membership k ≡ (if k == who then none else s.group_membership k))
        × (s'.all_members ≡ s.all_members)
  unfolding remove_member
  remove_member_forgets origin who s e known = rw (e, known) (refl, λ g k. refl, λ k. refl, refl)

  -- A signed member that joins two different groups, and then is removed, still has its score in
  -- the first one, and none in the second.
  pub stale_score :
      (origin : Origin) (who first second score score' : ℕ) (s : State)
      → frame.ensure_signed origin ≡ some who
      → is_member who s ≡ true
      → first ≢ second
      → let s1 = (join_a_group frame origin first score s).1 in
        let s2 = (join_a_group frame origin second score' s1).1 in
        let (r, s3) = remove_member frame origin s2 in
        (r ≡ ok tt) × (s3.member_score first who ≡ some score) × (s3.member_score second who ≡ none)
  unfolding join_a_group remove_member
  stale_score origin who first second score score' s e known ne = ground arith

  -- A signed origin that has joined no group gets ok when it clears the group 0, and then all
  -- scores of that group are gone, and no others.
  pub outsider_clears_group_zero :
      (origin : Origin) (who : ℕ) (s : State)
      → frame.ensure_signed origin ≡ some who
      → s.group_membership who ≡ none
      → let (r, s') = remove_group_score frame origin 0 s in
        (r ≡ ok tt)
        × ((g k : ℕ) → s'.member_score g k ≡ (if g == 0 then none else s.member_score g k))
  unfolding remove_group_score
  outsider_clears_group_zero origin who s e h = rw (e, h) (refl, λ g k. refl)
