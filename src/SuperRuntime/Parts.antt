-- ===== src/SuperRuntime/Parts.antt =====
-- What a call leaves of the three parts of the state that have an invariant.
use substrate_recipes.Prelude.{ℕ, Bool, [], ◌∷◌, Option-cases, inl, inr}
use substrate_recipes.Frame.{Frame}
use substrate_recipes.VecSet
use substrate_recipes.VecSet.Members
use substrate_recipes.MapSet
use substrate_recipes.MapSet.Members as MapMembers
use substrate_recipes.Ring.Pallet
use substrate_recipes.Ring.Pallet.Spec
use substrate_recipes.SuperRuntime.Calls

module _ {Origin : Type 0} (frame : Frame Origin) (o : Origin) where
  pub vec_set-IsValid :
      (overflow_checks : Bool) (now : ℕ) (c : Calls.MembersCall) (v : VecSet.State)
      → Members.IsValid v
      → Members.IsValid (Calls.vec_set_call overflow_checks frame now o c v).1
  unfolding VecSet.add_member VecSet.remove_member
  vec_set-IsValid oc now Calls.add_member v h = elim (Option-cases (frame.ensure_signed o)) [
    | inl e ↦ rw e h
    | inr (who, e) ↦ let (_, _, _, _, h') = Members.add_member_lem frame o who v e h in h'
  ]
  vec_set-IsValid oc now Calls.remove_member v h = elim (Option-cases (frame.ensure_signed o)) [
    | inl e ↦ rw e h
    | inr (who, e) ↦ let (_, _, _, _, h') = Members.remove_member_lem frame o who v e h in h'
  ]

  pub map_set-IsValid :
      (overflow_checks : Bool) (now : ℕ) (c : Calls.MembersCall) (m : MapSet.State)
      → MapMembers.IsValid m
      → MapMembers.IsValid (Calls.map_set_call overflow_checks frame now o c m).1
  unfolding MapSet.add_member MapSet.remove_member
  map_set-IsValid oc now Calls.add_member m h = elim (Option-cases (frame.ensure_signed o)) [
    | inl e ↦ rw e h
    | inr (who, e) ↦ let (_, _, _, _, h') = MapMembers.add_member_lem oc frame o who m e h in h'
  ]
  map_set-IsValid oc now Calls.remove_member m h = elim (Option-cases (frame.ensure_signed o)) [
    | inl e ↦ rw e h
    | inr (who, e) ↦ let (_, _, _, _, h') = MapMembers.remove_member_lem oc frame o who m e h in h'
  ]

  pub ringbuffer_queue-IsStored :
      (overflow_checks : Bool) (now : ℕ) (c : Calls.RingbufferQueueCall) (s : Pallet.State)
      → Spec.IsStored s
      → Spec.IsStored (Calls.ringbuffer_queue_call overflow_checks frame now o c s).1
  unfolding Spec.run Spec.step
  ringbuffer_queue-IsStored oc now (Calls.add_to_queue i b) s h =
      (Spec.run_refines frame (Spec.add o i b ∷ []) s h).0
  ringbuffer_queue-IsStored oc now (Calls.add_multiple is b) s h =
      (Spec.run_refines frame (Spec.add_many o is b ∷ []) s h).0
  ringbuffer_queue-IsStored oc now Calls.pop_from_queue s h =
      (Spec.run_refines frame (Spec.take o ∷ []) s h).0
