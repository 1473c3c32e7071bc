-- ===== src/SimpleMap/Entries.antt =====
-- What a user's calls do to the entries of the map.
use substrate_recipes.Prelude.{
  ℕ, ◌+◌, ◌^◌, ◌≡◌, ◌≢◌, none, some, [], ◌∷◌, ◌++◌, arith, ltb, if◌then◌else◌, unwrap_or, is_some,
}
use substrate_recipes.Frame.{Frame, ok, err, module_error}
use substrate_recipes.SimpleMap.{
  State, set_single_entry, get_single_entry, take_single_entry, increase_single_entry, entry_set,
  entry_taken, entry_increased, no_value_stored, max_value_reached,
}

module _ {Origin : Type 0} (frame : Frame Origin) where
  -- A signed user who sets an entry and takes it gets ok twice and the entry back, in the event,
  -- and no entry is left; a second take fails and changes nothing.
  pub take-set :
      (origin : Origin) (user entry : ℕ) (s : State)
      → frame.ensure_signed origin ≡ some user
      → let (r, s1) = set_single_entry frame origin entry s in
        let (r', s2) = take_single_entry frame origin s1 in
        (r ≡ ok tt)
        × (r' ≡ ok tt)
        × (s2.events ≡ (s.events ++ (entry_set user entry ∷ [])) ++ (entry_taken user entry ∷ []))
        × (s2.simple_map user ≡ none)
        × (take_single_entry frame origin s2 ≡ (err (module_error no_value_stored), s2))
  unfolding set_single_entry take_single_entry
  take-set origin user entry s e = ground arith

  -- An increase adds to a stored entry where the sum is a `u32`; it fails where there is none, and
  -- where the sum is too large. A call that fails changes nothing.
  pub increase_single_entry_lem :
      (origin : Origin) (user x : ℕ) (s : State)
      → frame.ensure_signed origin ≡ some user
      → let (r, s') = increase_single_entry frame origin x s in
        let old = unwrap_or (s.simple_map user) 0 in
        let stored = is_some (s.simple_map user) in
        let fits = ltb (old + x) (2 ^ 32) in
        (r ≡ (
          if stored
          then if fits then ok tt else err (module_error max_value_reached)
          else err (module_error no_value_stored)))
        × (s'.simple_map user
            ≡ (if stored then if fits then some (old + x) else s.simple_map user else none))
        × (s'.events ≡ (
            if stored
            then if fits then s.events ++ (entry_increased user old (old + x) ∷ []) else s.events
            else s.events))
  unfolding increase_single_entry
  increase_single_entry_lem origin user x s e = ground arith

  -- No call of a user changes the entry of another.
  pub others_untouched :
      (origin : Origin) (user j x account : ℕ) (s : State)
      → frame.ensure_signed origin ≡ some user
      → j ≢ user
      → ((set_single_entry frame origin x s).1.simple_map j ≡ s.simple_map j)
        × ((get_single_entry frame origin account s).1.simple_map j ≡ s.simple_map j)
        × ((take_single_entry frame origin s).1.simple_map j ≡ s.simple_map j)
        × ((increase_single_entry frame origin x s).1.simple_map j ≡ s.simple_map j)
  unfolding set_single_entry get_single_entry take_single_entry increase_single_entry
  others_untouched origin user j x account s e ne =
      (ground arith, ground arith, ground arith, ground arith)
