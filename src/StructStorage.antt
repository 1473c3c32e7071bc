-- ===== src/StructStorage.antt =====
-- The struct-storage pallet (pallets/struct-storage/src/lib.rs): inner things by number, and super
-- things that hold a copy of an inner thing.
pub mod Copies
use substrate_recipes.Prelude.{
  ℕ, Option, none, some, List, [], ◌∷◌, ◌++◌, unwrap_or, ◌==◌, if◌then◌else◌,
}
use substrate_recipes.Frame.{Frame, Call, signed, gets, modify, ◌>>=◌, ◌>>◌}
use substrate_recipes.Frame.Storage.{StorageMap, insert}

pub record InnerThing : Type 0 where
  pub number : ℕ
  pub hash : ℕ
  pub balance : ℕ

pub record SuperThing : Type 0 where
  pub super_number : ℕ
  pub inner_thing : InnerThing

-- `#[derive(Default)]`
abbrev pub default_inner : InnerThing
default_inner = record { number = 0; hash = 0; balance = 0 }

pub data Event : Type 0 where
  new_inner_thing : ℕ → ℕ → ℕ → Event
  new_super_thing_by_existing_inner new_super_thing_by_new_inner : ℕ → ℕ → ℕ → ℕ → Event

-- `InnerThingsByNumbers`, `SuperThingsBySuperNumbers`, and the events deposited so far.
pub record State : Type 0 where
  pub inner_things : StorageMap InnerThing
  pub super_things : StorageMap SuperThing
  pub events : List Event

abbrev deposit_event : Event → State → State
deposit_event e s = record s { events = s.events ++ (e ∷ []) }

-- `inner_things_by_numbers`; a missing entry reads as the default.
abbrev pub inner_thing_at : ℕ → State → InnerThing
inner_thing_at n s = unwrap_or (s.inner_things n) default_inner

abbrev put_inner : ℕ → InnerThing → State → State
put_inner n thing s = record s { inner_things = insert n thing s.inner_things }

abbrev put_super : ℕ → SuperThing → State → State
put_super n thing s = record s { super_things = insert n thing s.super_things }

module _ {Origin : Type 0} (frame : Frame Origin) where
  pub insert_inner_thing : Origin → ℕ → ℕ → ℕ → Call State ⊥ (Unit {0})
  insert_inner_thing origin number hash balance = do
    signed frame origin
    modify (put_inner number (record { number = number; hash = hash; balance = balance }))
    modify (deposit_event (new_inner_thing number hash balance))

  pub insert_super_thing_with_existing_inner : Origin → ℕ → ℕ → Call State ⊥ (Unit {0})
  insert_super_thing_with_existing_inner origin inner_number super_number = do
    signed frame origin
    inner ← gets (inner_thing_at inner_number)
    modify (put_super super_number (record { super_number = super_number; inner_thing = inner }))
    modify (
        deposit_event
          (new_super_thing_by_existing_inner super_number inner.number inner.hash inner.balance))

  pub insert_super_thing_with_new_inner : Origin → ℕ → ℕ → ℕ → ℕ → Call State ⊥ (Unit {0})
  insert_super_thing_with_new_inner origin inner_number hash balance super_number = do
    signed frame origin
    let inner : InnerThing = record { number = inner_number; hash = hash; balance = balance }
    modify (put_inner inner_number inner)
    modify (deposit_event (new_inner_thing inner_number hash balance))
    modify (put_super super_number (record { super_number = super_number; inner_thing = inner }))
    modify (deposit_event (new_super_thing_by_new_inner super_number inner_number hash balance))
