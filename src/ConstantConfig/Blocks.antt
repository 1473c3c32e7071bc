-- ===== src/ConstantConfig/Blocks.antt =====
-- The value over a run of blocks, each with its additions and the hook at its end.
use substrate_recipes.Prelude.{
  ℕ, ◌↔◌, ◌+◌, ◌*◌, ◌%◌, ◌^◌, ◌≤◌, ◌≡◌, ◌≢◌, true, some, List, [], ◌∷◌, ◌++◌, arith, ltb, leb, ◌==◌,
  ◌&&◌, if◌then◌else◌, length,
}
use substrate_recipes.Frame.{Frame, Outcome, ok}
use substrate_recipes.ConstantConfig.{Config, State, added, add_value, on_finalize}

module _ (config : Config) {Origin : Type 0} (frame : Frame Origin) where
  -- The calls of a block, one after the other.
  unfoldable pub add_values : List (Origin × ℕ) → State → State
  add_values [] s = s
  add_values ((origin, val) ∷ calls) s = add_values calls (add_value config frame origin val s).1

  unfoldable pub run_block : ℕ → List (Origin × ℕ) → State → State
  unfolding add_values
  run_block n calls s = (on_finalize config n (add_values calls s)).1

  -- An addition adds an amount within the limit where the sum is a `u32`, and reports it; otherwise
  -- the call fails and nothing changes.
  pub add_value_lem :
      (origin : Origin) (who val : ℕ) (s : State)
      → frame.ensure_signed origin ≡ some who
      → let accepted = leb val config.max_addend && ltb (s.single_value + val) (2 ^ 32) in
        let (r, s') = add_value config frame origin val s in
        (s' ≡ (
          if accepted
          then record s {
            single_value = s.single_value + val;
            events = s.events ++ (added s.single_value val (s.single_value + val) ∷ []);
          }
          else s))
        × ((r ≡ ok tt) ↔ (accepted ≡ true))
  unfolding add_value
  add_value_lem origin who val s e = ground arith

  add_value-le :
      (origin : Origin) (val : ℕ) (s : State)
      → (add_value config frame origin val s).1.single_value ≤ s.single_value + config.max_addend
  unfolding add_value
  add_value-le origin val s = ground arith

  add_values-le :
      (calls : List (Origin × ℕ)) (s : State)
      → (add_values calls s).single_value ≤ s.single_value + length calls * config.max_addend
  unfolding add_values
  add_values-le [] s = omega arith
  add_values-le ((origin, val) ∷ calls) s = grind (
    arith,
    add_values-le calls (add_value config frame origin val s).1,
    add_value-le origin val s,
  )

  -- For a frequency that is not zero the hook returns ok. At the end of a block whose number is a
  -- multiple of the frequency the value is zero, whatever was called in it; at the end of any other
  -- block the value is at most that of before plus the limit for each call.
  pub run_block_lem :
      (n : ℕ) (calls : List (Origin × ℕ)) (s : State)
      → config.clear_frequency ≢ 0
      → ((on_finalize config n (add_values calls s)).0 ≡ ok tt)
        × ((run_block n calls s).single_value ≤ (
            if n % config.clear_frequency == 0
            then 0
            else s.single_value + length calls * config.max_addend))
  unfolding run_block on_finalize
  run_block_lem n calls s ne = ground (arith, add_values-le calls s)

  -- With a frequency of zero the hook panics at every block.
  pub on_finalize_panics :
      (n : ℕ) (s : State) → config.clear_frequency ≡ 0 → (on_finalize config n s).0 ≡ Outcome.panic
  unfolding on_finalize
  on_finalize_panics n s e = ground arith
