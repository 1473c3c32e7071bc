-- ===== src/StorageCache/Equal.antt =====
-- The cached versions do what the uncached ones do.
use substrate_recipes.Prelude.{
  ℕ, ◌+◌, ◌*◌, ◌↔◌, ◌^◌, ◌≡◌, true, some, List, [], ◌∷◌, ◌++◌, arith, ltb, if◌then◌else◌, not, ◌&&◌,
}
use substrate_recipes.Frame.{Frame, ok, err, other}
use substrate_recipes.StorageCache.{
  State, is_member, increase_value_no_cache, increase_value_w_copy, swap_king_no_cache,
  swap_king_with_cache, better_value_change, better_king_swap,
}

-- The storage without the log of events, which tells the two versions apart.
pub record Stored : Type 0 where
  pub copy_value : ℕ
  pub king : ℕ
  pub group : List ℕ

abbrev pub stored : State → Stored
stored s = record { copy_value = s.some_copy_value; king = s.king_member; group = s.group_members }

module _ {Origin : Type 0} (frame : Frame Origin) where
  -- From every state and for every argument the two versions of the value change return the same
  -- and leave the same storage, the events aside.
  pub increase_value_equal :
      (now : ℕ) (origin : Origin) (x : ℕ) (s : State)
      → let (r, s') = increase_value_no_cache frame now origin x s in
        let (r', s'') = increase_value_w_copy frame now origin x s in
        (r ≡ r') × (stored s' ≡ stored s'')
  unfolding increase_value_no_cache increase_value_w_copy
  increase_value_equal now origin x s = ground arith

  -- From every state the two versions of the king swap return the same and leave the same storage,
  -- the events aside.
  pub swap_king_equal :
      (origin : Origin) (s : State)
      → let (r, s') = swap_king_no_cache frame origin s in
        let (r', s'') = swap_king_with_cache frame origin s in (r ≡ r') × (stored s' ≡ stored s'')
  unfolding swap_king_no_cache swap_king_with_cache
  swap_king_equal origin s = ground arith

  -- The value becomes twice the old one plus the argument where that is a `u32`, and is reported;
  -- otherwise the call fails and nothing changes.
  pub increase_value_lem :
      (now : ℕ) (origin : Origin) (who x : ℕ) (s : State)
      → frame.ensure_signed origin ≡ some who
      → let v = s.some_copy_value in
        let v' = 2 * v + x in
        increase_value_w_copy frame now origin x s ≡ (
          if ltb v' (2 ^ 32)
              then ok tt
              else err (
                  other (
                    if ltb (v + x) (2 ^ 32)
                    then "addition overflowed2"
                    else "addition overflowed1")),
          if ltb v' (2 ^ 32)
              then record s {
                some_copy_value = v';
                events = s.events ++ (better_value_change v' now ∷ []);
              }
              else s,
        )
  unfolding increase_value_w_copy
  increase_value_lem now origin who x s e = ground arith

  -- A signed caller becomes king, gets ok and is reported exactly where it is a member and the king
  -- is none; that is the only change to the storage, and otherwise there is none.
  pub swap_king_lem :
      (origin : Origin) (who : ℕ) (s : State)
      → frame.ensure_signed origin ≡ some who
      → let swapped = not (is_member s.king_member s) && is_member who s in
        let (r, s') = swap_king_with_cache frame origin s in
        (stored s' ≡ (if swapped then record (stored s) { king = who } else stored s))
        × (s'.events
            ≡ (if swapped then s.events ++ (better_king_swap s.king_member who ∷ []) else s.events))
        × ((r ≡ ok tt) ↔ (swapped ≡ true))
  unfolding swap_king_with_cache
  swap_king_lem origin who s e = ground arith
