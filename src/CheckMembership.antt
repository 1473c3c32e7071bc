-- ===== src/CheckMembership.antt =====
-- Access control by membership (pallets/check-membership/src): the tight pallet, which searches the
-- vector of the vec-set pallet, and the loose one, which asks any `AccountSet`.
pub mod Agree
pub mod Outcomes
use substrate_recipes.Prelude.{ℕ, List, [], ◌∷◌, ◌++◌, Bool, true, false}
use substrate_recipes.Frame.{
  Frame, Call, Outcome, ok, err, signed, gets, ensure, modify, pure, fail, module_error, ◌>>=◌,
  ◌>>◌,
}
use substrate_recipes.SortedVec.{Found, at, missing, binary_search, contains}
use substrate_recipes.VecSet

pub data Event : Type 0 where
  is_a_member : ℕ → Event

pub data Error : Type 0 where
  not_a_member : Error

-- The trait `AccountSet` (traits/account-set/src/lib.rs): a source of accounts, over its storage.
pub record AccountSet (Source : Type 0) : Type 0 where
  pub accounts : Source → List ℕ

-- The storage of the pallet the accounts come from, and the events deposited so far.
pub record State (Source : Type 0) : Type 0 where
  pub source : Source
  pub events : List Event

abbrev deposit_event : {Source : Type 0} → Event → State Source → State Source
deposit_event e s = record s { events = s.events ++ (e ∷ []) }

-- `.map_err(|_| NotAMember)?` on the result of a search.
abbrev found_or_err : {S : Type 0} → Found → Call S Error (Unit {0})
found_or_err (at i) = pure tt
found_or_err (missing i) = fail (module_error not_a_member)

module _ {Origin : Type 0} (frame : Frame Origin) where
  pub check_membership_tight : Origin → Call (State VecSet.State) Error (Unit {0})
  check_membership_tight origin = do
    caller ← signed frame origin
    members ← gets (λ s. s.source.members)
    found_or_err (binary_search members caller)
    modify (deposit_event (is_a_member caller))

  pub check_membership_loose :
      {Source : Type 0} → AccountSet Source → Origin → Call (State Source) Error (Unit {0})
  check_membership_loose membership_source origin = do
    caller ← signed frame origin
    members ← gets (λ s. membership_source.accounts s.source)
    ensure (contains caller members) (module_error not_a_member)
    modify (deposit_event (is_a_member caller))
