-- ===== src/MapSet/Accounts.antt =====
-- What `AccountSet::accounts` of the two sets gives (pallets/vec-set/src/lib.rs,
-- pallets/map-set/src/lib.rs): an ordered set.
use substrate_recipes.Prelude.{◌≡◌, sym, ◌∙◌, List, Bool}
use substrate_recipes.Frame.{Frame}
use substrate_recipes.SortedVec.{collect}
use substrate_recipes.SortedVec.Update.{contains-collect}
use substrate_recipes.SortedVec.Canonical.{collect-IsSorted, IsSorted-ext}
use substrate_recipes.VecSet
use substrate_recipes.MapSet.{State, accounts}
use substrate_recipes.MapSet.Agree.{Agree, Op, vec_run, map_run, run_agrees}

module _ {Origin : Type 0} (overflow_checks : Bool) (frame : Frame Origin) where
  -- From a vector set and a map set that are valid and agree: after any sequence of calls, the same in
  -- both, the accounts that either gives are the vector that the first one stores.
  pub accounts-run :
      (ops : List (Op Origin)) (v : VecSet.State) (m : State)
      → Agree v m
      → let v' = (vec_run overflow_checks frame ops v).1 in
        let m' = (map_run overflow_checks frame ops m).1 in
        (VecSet.accounts v' ≡ v'.members) × (accounts m' ≡ v'.members)
  unfolding VecSet.accounts accounts
  accounts-run ops v m h =
      let v' = (vec_run overflow_checks frame ops v).1 in
      let m' = (map_run overflow_checks frame ops m).1 in
      let agree = (run_agrees overflow_checks frame ops v m h).1 in
      let sorted = agree.vec_valid.sorted in
      (
        IsSorted-ext (collect v'.members) v'.members (collect-IsSorted v'.members) sorted
            (λ j. contains-collect j v'.members),
        IsSorted-ext (collect m'.members) v'.members (collect-IsSorted m'.members) sorted
            (λ j. contains-collect j m'.members ∙ sym (agree.same_members j)),
      )
