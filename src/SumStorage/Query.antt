-- ===== src/SumStorage/Query.antt =====
-- What the RPC method answers after the calls of a chain.
use substrate_recipes.Prelude.{
  ℕ, ◌+◌, ◌^◌, ◌%◌, ◌≡◌, refl, ap, ◌∙◌, Bool, true, false, Option, none, some, List, [], ◌∷◌, arith,
  ltb, Option-cases, inl, inr, ◌⊎◌, unwrap_or, if◌then◌else◌,
}
use substrate_recipes.Prelude.Words.{plain_add}
use substrate_recipes.Frame.{Frame}
use substrate_recipes.SumStorage.{
  State, Client, RpcError, set_thing_1, set_thing_2, get_sum, api_get_sum, rpc_get_sum, map_err,
  answer,
}

-- The calls of the pallet as values.
pub data PalletCall : Type 0 where
  set_1 set_2 : ℕ → PalletCall

-- What the method answers where the two numbers are these.
abbrev pub reply : {E : Type 0} → Bool → Client E → ℕ × ℕ → RpcError E ⊎ ℕ
reply overflow_checks client (x, y) =
    if ltb (x + y) (2 ^ 32)
    then inr (x + y)
    else if overflow_checks
    then inl (record { server_error = 9876; message = "Something wrong"; data' = client.panicked })
    else inr ((x + y) % 2 ^ 32)

replied :
    {E : Type 0} (overflow_checks : Bool) (client : Client E) (x y : ℕ)
    → map_err overflow_checks client
        (answer overflow_checks client (plain_add 32 overflow_checks x y))
      ≡ reply overflow_checks client (x, y)
replied true client x y = ground arith
replied false client x y = ground arith

module _ {Origin : Type 0} (frame : Frame Origin) where
  abbrev pub dispatch : Origin → PalletCall → State → State
  unfolding set_thing_1 set_thing_2
  dispatch o (set_1 x) s = (set_thing_1 frame o x s).1
  dispatch o (set_2 x) s = (set_thing_2 frame o x s).1

  unfoldable pub run : List (Origin × PalletCall) → State → State
  unfolding dispatch
  run [] s = s
  run ((o, call) ∷ calls) s = run calls (dispatch o call s)

  -- The two numbers after some calls: the last that a signed call gave to each.
  abbrev set_by : Option ℕ → PalletCall → ℕ × ℕ → ℕ × ℕ
  set_by none call (x, y) = (x, y)
  set_by (some who) (set_1 z) (x, y) = (z, y)
  set_by (some who) (set_2 z) (x, y) = (x, z)

  unfoldable pub last_values : List (Origin × PalletCall) → ℕ × ℕ → ℕ × ℕ
  last_values [] xy = xy
  last_values ((o, call) ∷ calls) xy = last_values calls (set_by (frame.ensure_signed o) call xy)

  things-dispatch :
      (o : Origin) (call : PalletCall) (s : State)
      → let s' = dispatch o call s in
        (s'.thing1, s'.thing2) ≡ set_by (frame.ensure_signed o) call (s.thing1, s.thing2)
  unfolding set_thing_1 set_thing_2
  things-dispatch o (set_1 x) s = elim (Option-cases (frame.ensure_signed o)) [
    | inl e ↦ rw e refl
    | inr (who, e) ↦ rw e refl
  ]
  things-dispatch o (set_2 x) s = elim (Option-cases (frame.ensure_signed o)) [
    | inl e ↦ rw e refl
    | inr (who, e) ↦ rw e refl
  ]

  things-run :
      (calls : List (Origin × PalletCall)) (s : State)
      → ((run calls s).thing1, (run calls s).thing2) ≡ last_values calls (s.thing1, s.thing2)
  unfolding run last_values
  things-run [] s = refl
  things-run ((o, call) ∷ calls) s =
      things-run calls (dispatch o call s) ∙ ap (last_values calls) (things-dispatch o call s)

  -- Where the state at the block that is asked for, or at the best one if none is, is that after some
  -- calls: the method answers with the sum of the last numbers that signed calls gave, as long as it is
  -- a `u32`; a sum that is not panics in a build that checks overflow, which is the server error 9876,
  -- and wraps in one that does not.
  pub rpc_get_sum-run :
      {E : Type 0} (overflow_checks : Bool) (client : Client E) (at : Option ℕ)
      (calls : List (Origin × PalletCall)) (s : State)
      → client.state_at (unwrap_or at client.best_hash) ≡ some (run calls s)
      → rpc_get_sum overflow_checks client at
        ≡ reply overflow_checks client (last_values calls (s.thing1, s.thing2))
  unfolding rpc_get_sum api_get_sum get_sum
  rpc_get_sum-run overflow_checks client at calls s h =
      rw (api_get_sum, h) (replied overflow_checks client (run calls s).thing1 (run calls s).thing2)
      ∙ ap (reply overflow_checks client) (things-run calls s)
