-- ===== src/SuperRuntime/Valid.antt =====
-- The invariants of the pallets, kept by every call of the runtime and every end of a block.
use substrate_recipes.Prelude.{
  ℕ, ◌≡◌, ◌≢◌, refl, sym, ap, subst, ◌∙◌, Option, some, none, Option-cases, inl, inr, arith,
}
use substrate_recipes.Frame.{Frame, Outcome, Call, ok, err, panic}
use substrate_recipes.VecSet.Members
use substrate_recipes.MapSet.Members as MapMembers
use substrate_recipes.Ring.Pallet.Spec
use substrate_recipes.Callers.Emitters
use substrate_recipes.CheckMembership.{check_membership_loose, check_membership_tight}
use substrate_recipes.CheckMembership.Agree
use substrate_recipes.CheckMembership.Outcomes.{
  check_membership_loose_lem, source-check_membership_tight,
}
use substrate_recipes.SuperRuntime.{
  Env, State, RuntimeCall, lift, unless_panic, and_then, next_hook, dispatch, finalize, loose_of,
  tight_of,
}
use substrate_recipes.SuperRuntime
use substrate_recipes.SuperRuntime.Parts.{
  vec_set-IsValid, map_set-IsValid, ringbuffer_queue-IsStored,
}

module _ {Bank Fixed : Type 0} where
  -- The vector of members is sorted and within its bound, the map of members agrees with its count, and
  -- the bounds of the ring buffer are indices.
  pub record IsValid (s : State Bank Fixed) : Type 0 where
    pub vec_valid : Members.IsValid s.vec_set
    pub map_valid : MapMembers.IsValid s.map_set
    pub ring_valid : Spec.IsStored s.ringbuffer_queue

-- What a call on a part leaves, where it is no panic.
after-unless_panic :
    {S E : Type 0} (Inv : S → Type 0) (r : Outcome E (Unit {0})) (s t : S)
    → unless_panic r s ≡ some t
    → Inv s
    → Inv t
after-unless_panic Inv (ok a) s t e h = let same : s ≡ t = cc in subst Inv same h
after-unless_panic Inv (err x) s t e h = let same : s ≡ t = cc in subst Inv same h
after-unless_panic Inv panic s t e h = absurd (ground arith)

none≢some : {S : Type 0} (t : S) → none ≢ some t
none≢some t e = ground arith

and_then_inv :
    {S : Type 0} (f g : S → Option S) (s t : S)
    → and_then f g s ≡ some t
    → (u : S) × (f s ≡ some u) × (g u ≡ some t)
unfolding and_then
and_then_inv f g s t e = elim (Option-cases (f s)) [
  | inl stop ↦ absurd (none≢some t (sym (ap (next_hook g) stop) ∙ e))
  | inr (u, e') ↦ (u, e', sym (ap (next_hook g) e') ∙ e)
]

module _ {Bank Fixed P E : Type 0} where
  -- A call on a part of the state leaves it valid if putting the part back does.
  lift-IsValid :
      (get : State Bank Fixed → P) (set : P → State Bank Fixed → State Bank Fixed)
      (m : Call P E (Unit {0})) (s t : State Bank Fixed)
      → lift get set m s ≡ some t
      → IsValid (set (m (get s)).1 s)
      → IsValid t
  unfolding lift
  lift-IsValid get set m s t e h =
      after-unless_panic IsValid (m (get s)).0 (set (m (get s)).1 s) t e h

say_hello_lem :
    {Origin S : Type 0} (frame : Frame Origin) (o : Origin) (s : S)
    → (Emitters.say_hello {Origin = Origin} frame {S = S} o s).1 ≡ s
unfolding Emitters.say_hello
say_hello_lem frame o s = ground arith

-- The three parts on which validity rests.
same_parts :
    {Bank Fixed : Type 0} (s t : State Bank Fixed)
    → s.vec_set ≡ t.vec_set
    → s.map_set ≡ t.map_set
    → s.ringbuffer_queue ≡ t.ringbuffer_queue
    → IsValid s
    → IsValid t
same_parts s t v m r h = record {
  vec_valid = subst Members.IsValid v h.vec_valid;
  map_valid = subst MapMembers.IsValid m h.map_valid;
  ring_valid = subst Spec.IsStored r h.ring_valid;
}

-- A call on a pallet that validity does not look at.
elsewhere-IsValid :
    {Bank Fixed P E : Type 0} (get : State Bank Fixed → P)
    (set : P → State Bank Fixed → State Bank Fixed) (m : Call P E (Unit {0}))
    (s t : State Bank Fixed)
    → lift get set m s ≡ some t
    → ((p : P)
        → (s.vec_set ≡ (set p s).vec_set)
          × (s.map_set ≡ (set p s).map_set)
          × (s.ringbuffer_queue ≡ (set p s).ringbuffer_queue))
    → IsValid s
    → IsValid t
elsewhere-IsValid get set m s t e same h =
    let p = (m (get s)).1 in
    let (v, c, r) = same p in lift-IsValid get set m s t e (same_parts s (set p s) v c r h)

module _ {Origin Bank Fixed : Type 0} (env : Env Origin Bank Fixed) (now : ℕ) (o : Origin) where
  pub dispatch-IsValid :
      (call : RuntimeCall) (s t : State Bank Fixed)
      → dispatch env now o call s ≡ some t
      → IsValid s
      → IsValid t
  unfolding dispatch
  dispatch-IsValid (SuperRuntime.basic_token c) s t e h =
      elsewhere-IsValid _ _ _ s t e (λ p. (refl, refl, refl)) h
  dispatch-IsValid (SuperRuntime.charity c) s t e h =
      elsewhere-IsValid _ _ _ s t e (λ p. (refl, refl, refl)) h
  dispatch-IsValid (SuperRuntime.compounding_interest c) s t e h =
      elsewhere-IsValid _ _ _ s t e (λ p. (refl, refl, refl)) h
  dispatch-IsValid (SuperRuntime.constant_config c) s t e h =
      elsewhere-IsValid _ _ _ s t e (λ p. (refl, refl, refl)) h
  dispatch-IsValid SuperRuntime.default_instance s t e h =
      elsewhere-IsValid _ _ _ s t e (λ p. (refl, refl, refl)) h
  dispatch-IsValid SuperRuntime.last_caller s t e h =
      elsewhere-IsValid _ _ _ s t e (λ p. (refl, refl, refl)) h
  dispatch-IsValid (SuperRuntime.double_map c) s t e h =
      elsewhere-IsValid _ _ _ s t e (λ p. (refl, refl, refl)) h
  dispatch-IsValid (SuperRuntime.fixed_point c) s t e h =
      elsewhere-IsValid _ _ _ s t e (λ p. (refl, refl, refl)) h
  dispatch-IsValid (SuperRuntime.generic_event x) s t e h =
      elsewhere-IsValid _ _ _ s t e (λ p. (refl, refl, refl)) h
  dispatch-IsValid (SuperRuntime.simple_event x) s t e h =
      elsewhere-IsValid _ _ _ s t e (λ p. (refl, refl, refl)) h
  dispatch-IsValid SuperRuntime.randomness s t e h =
      elsewhere-IsValid _ _ _ s t e (λ p. (refl, refl, refl)) h
  dispatch-IsValid (SuperRuntime.reservable_currency c) s t e h =
      elsewhere-IsValid _ _ _ s t e (λ p. (refl, refl, refl)) h
  dispatch-IsValid (SuperRuntime.crowdfund c) s t e h =
      elsewhere-IsValid _ _ _ s t e (λ p. (refl, refl, refl)) h
  dispatch-IsValid (SuperRuntime.simple_map c) s t e h =
      elsewhere-IsValid _ _ _ s t e (λ p. (refl, refl, refl)) h
  dispatch-IsValid (SuperRuntime.storage_cache c) s t e h =
      elsewhere-IsValid _ _ _ s t e (λ p. (refl, refl, refl)) h
  dispatch-IsValid (SuperRuntime.struct_storage c) s t e h =
      elsewhere-IsValid _ _ _ s t e (λ p. (refl, refl, refl)) h
  dispatch-IsValid SuperRuntime.hello_substrate s t e h =
      lift-IsValid _ _ (Emitters.say_hello env.frame o) s t e
        (subst IsValid (sym (say_hello_lem env.frame o s)) h)
  dispatch-IsValid SuperRuntime.check_membership_loose s t e h =
      let loose = (check_membership_loose env.frame Agree.vec_accounts o (loose_of env s)).1 in
      let (_, same) = check_membership_loose_lem env.frame o (loose_of env s) in
      lift-IsValid _ _ _ s t e (
        same_parts s (record s { vec_set = loose.source; loose_events = loose.events }) (sym same)
          refl refl h)
  dispatch-IsValid SuperRuntime.check_membership_tight s t e h =
      let tight = (check_membership_tight env.frame o (tight_of env s)).1 in
      let same = source-check_membership_tight env.frame o (tight_of env s) in
      lift-IsValid _ _ _ s t e (
        same_parts s (record s { vec_set = tight.source; tight_events = tight.events }) (sym same)
          refl refl h)
  dispatch-IsValid (SuperRuntime.vec_set c) s t e h = lift-IsValid _ _ _ s t e (record {
    vec_valid = vec_set-IsValid env.frame o env.overflow_checks now c s.vec_set h.vec_valid;
    map_valid = h.map_valid;
    ring_valid = h.ring_valid;
  })
  dispatch-IsValid (SuperRuntime.map_set c) s t e h = lift-IsValid _ _ _ s t e (record {
    vec_valid = h.vec_valid;
    map_valid = map_set-IsValid env.frame o env.overflow_checks now c s.map_set h.map_valid;
    ring_valid = h.ring_valid;
  })
  dispatch-IsValid (SuperRuntime.ringbuffer_queue c) s t e h = lift-IsValid _ _ _ s t e (record {
    vec_valid = h.vec_valid;
    map_valid = h.map_valid;
    ring_valid =
        ringbuffer_queue-IsStored env.frame o env.overflow_checks now c s.ringbuffer_queue
          h.ring_valid;
  })

module _ {Origin Bank Fixed : Type 0} (env : Env Origin Bank Fixed) where
  pub finalize-IsValid :
      (now : ℕ) (s t : State Bank Fixed) → finalize env now s ≡ some t → IsValid s → IsValid t
  unfolding finalize
  finalize-IsValid now s t e h =
      let (u, e', e'') = and_then_inv _ _ s t e in
      elsewhere-IsValid _ _ _ u t e'' (λ p. (refl, refl, refl))
        (elsewhere-IsValid _ _ _ s u e' (λ p. (refl, refl, refl)) h)
