-- ===== src/SuperRuntime/Membership.antt =====
-- Who passes the two membership checks of the runtime, in every state that it can come to.
use substrate_recipes.Prelude.{
  ℕ, ◌<◌, ◌≡◌, refl, ap, ◌∙◌, Bool, true, some, length, ltb, if◌then◌else◌, arith, not, ◌==◌, ◌&&◌,
  ◌||◌,
}
use substrate_recipes.Frame.{ok}
use substrate_recipes.VecSet
use substrate_recipes.VecSet.Members
use substrate_recipes.CheckMembership.{check_membership_loose, check_membership_tight}
use substrate_recipes.CheckMembership.Agree
use substrate_recipes.CheckMembership.Outcomes.{verdict, checks_lem}
use substrate_recipes.SuperRuntime
use substrate_recipes.SuperRuntime.{
  Env, State, RuntimeCall, dispatch, finalize, loose_of, tight_of, lift, unless_panic,
}
use substrate_recipes.SuperRuntime.Calls
use substrate_recipes.SuperRuntime.Valid.{IsValid, dispatch-IsValid, finalize-IsValid}

module _ {Origin Bank Fixed : Type 0} (env : Env Origin Bank Fixed) where
  -- A call by some origin in some block, or the end of a block, that does not panic.
  pub data Step (s t : State Bank Fixed) : Type 0 where
    calls :
        (now : ℕ) (o : Origin) (call : RuntimeCall) → dispatch env now o call s ≡ some t → Step s t
    ends : (now : ℕ) → finalize env now s ≡ some t → Step s t

  pub data Reach (s : State Bank Fixed) : State Bank Fixed → Type 0 where
    here : Reach s s
    next : {t u : State Bank Fixed} → Reach s t → Step t u → Reach s u

  Reach-IsValid : {s t : State Bank Fixed} → Reach s t → IsValid s → IsValid t
  Reach-IsValid here h = h
  Reach-IsValid (next r (calls now o call e)) h =
      dispatch-IsValid env now o call _ _ e (Reach-IsValid r h)
  Reach-IsValid (next r (ends now e)) h = finalize-IsValid env now _ _ e (Reach-IsValid r h)

  -- From a valid state, whatever calls of the runtime are made by whatever origins, with the ends of
  -- blocks between them: the states of the vector set, the map set and the ring buffer are valid, and
  -- the tight and the loose check both let exactly the members of the vector set through.
  pub Reach-verdict :
      {s t : State Bank Fixed}
      → Reach s t
      → IsValid s
      → (o : Origin)
      → IsValid t
        × ((check_membership_tight env.frame o (tight_of env t)).0
            ≡ verdict (env.frame.ensure_signed o) t.vec_set)
        × ((check_membership_loose env.frame Agree.vec_accounts o (loose_of env t)).0
            ≡ verdict (env.frame.ensure_signed o) t.vec_set)
  Reach-verdict {s} {t} r h o =
      let h' = Reach-IsValid r h in
      let (tight, loose) =
        checks_lem env.frame o (tight_of env t) (loose_of env t) refl h'.vec_valid in
      (h', tight, loose)

  settled :
      (who n m : ℕ) (old : Bool)
      → n < m
      → (if ltb n m && not old then who == who || old else old) ≡ true
  settled who n m old room = ground arith

  not_panicked :
      (n : ℕ) (member : Bool) (s : State Bank Fixed)
      → unless_panic (Members.add_outcome n member) s ≡ some s
  not_panicked n member s = ground arith

  member_after :
      (o : Origin) (who : ℕ) (v : VecSet.State)
      → env.frame.ensure_signed o ≡ some who
      → Members.IsValid v
      → length v.members < VecSet.max_members
      → Members.is_member who (VecSet.add_member env.frame o v).1 ≡ true
  member_after o who v e valid room =
      let (_, becomes, _, _, _) = Members.add_member_lem env.frame o who v e valid in
      becomes who ∙ settled who (length v.members) VecSet.max_members (Members.is_member who v) room

  -- In every state that comes about from a valid one and where the vector set has room, the call of
  -- a signed origin to join it ends without a panic, and after it both checks let the origin
  -- through.
  pub joined_passes :
      {s t : State Bank Fixed}
      → Reach s t
      → IsValid s
      → (now : ℕ) (o : Origin) (who : ℕ) → env.frame.ensure_signed o ≡ some who
      → length t.vec_set.members < VecSet.max_members
      → (u : State Bank Fixed) × (dispatch env now o (SuperRuntime.vec_set Calls.add_member) t
          ≡ some u)
        × ((check_membership_tight env.frame o (tight_of env u)).0 ≡ ok tt)
        × ((check_membership_loose env.frame Agree.vec_accounts o (loose_of env u)).0 ≡ ok tt)
  unfolding dispatch lift
  joined_passes {s} {t} r h now o who e room =
      let u = record t { vec_set = (VecSet.add_member env.frame o t.vec_set).1 } in
      let valid = Reach-IsValid r h in
      let (outcome, _, _, _, vec_valid) =
        Members.add_member_lem env.frame o who t.vec_set e valid.vec_valid in
      let (tight, loose) =
        checks_lem env.frame o (tight_of env u) (loose_of env u) refl vec_valid in
      let passes : verdict (env.frame.ensure_signed o) u.vec_set ≡ ok tt =
        rw (e, member_after o who t.vec_set e valid.vec_valid room) refl in
      (
        u,
        ap (λ r. unless_panic r u) outcome
            ∙ not_panicked (length t.vec_set.members) (Members.is_member who t.vec_set) u,
        tight ∙ passes,
        loose ∙ passes,
      )
