-- ===== src/StructStorage/Copies.antt =====
-- How the super things relate to the inner things.
use substrate_recipes.Prelude.{ℕ, ◌≡◌, some, arith}
use substrate_recipes.Frame.{Frame, ok}
use substrate_recipes.StructStorage.{
  State, InnerThing, SuperThing, inner_thing_at, insert_inner_thing,
  insert_super_thing_with_existing_inner, insert_super_thing_with_new_inner,
}

module _ {Origin : Type 0} (frame : Frame Origin) where
  -- For a signed origin, a super thing made from the inner thing under a number, the default where
  -- none is stored, holds a copy: it equals the inner thing of that time also after the inner thing
  -- has been overwritten.
  pub super_thing_copies :
      (origin : Origin) (who inner_number super_number hash balance : ℕ) (s : State)
      → frame.ensure_signed origin ≡ some who
      → let (r, s1) =
          insert_super_thing_with_existing_inner frame origin inner_number super_number s in
        let (r', s2) = insert_inner_thing frame origin inner_number hash balance s1 in
        let thing : SuperThing = record {
          super_number = super_number;
          inner_thing = inner_thing_at inner_number s;
        } in
        let new : InnerThing = record { number = inner_number; hash = hash; balance = balance } in
        (r ≡ ok tt)
        × (r' ≡ ok tt)
        × (s2.super_things super_number ≡ some thing)
        × (s2.inner_things inner_number ≡ some new)
  unfolding insert_super_thing_with_existing_inner insert_inner_thing
  super_thing_copies origin who inner_number super_number hash balance s e = ground arith

  -- Making a super thing with a new inner thing returns and stores what two calls do: the inner thing
  -- first, and then a super thing from the stored inner thing.
  pub new_inner_by_steps :
      (origin : Origin) (inner_number hash balance super_number : ℕ) (s : State)
      → let (r, s') =
          insert_super_thing_with_new_inner frame origin inner_number hash balance super_number s in
        let (r1, s1) = insert_inner_thing frame origin inner_number hash balance s in
        let (r2, s2) =
          insert_super_thing_with_existing_inner frame origin inner_number super_number s1 in
        (r ≡ r1)
        × (r ≡ r2)
        × ((k : ℕ) → s'.inner_things k ≡ s2.inner_things k)
        × ((k : ℕ) → s'.super_things k ≡ s2.super_things k)
  unfolding insert_super_thing_with_new_inner insert_super_thing_with_existing_inner
      insert_inner_thing
  new_inner_by_steps origin inner_number hash balance super_number s =
      (ground arith, ground arith, λ k. ground arith, λ k. ground arith)
