-- ===== src/MapSet/Agree.antt =====
-- The two implementations of a membership set behave alike: fed with the same calls they give the
-- same outcomes and events, and hold the same members.
use substrate_recipes.Prelude.{
  ℕ, ◌≡◌, List, [], ◌∷◌, length, Bool, arith, none, refl, Option-cases, inl, inr, ap₂,
}
use substrate_recipes.Frame.{Frame, Outcome}
use substrate_recipes.VecSet
use substrate_recipes.VecSet.Members
use substrate_recipes.MapSet.{State, Error, add_member, remove_member}
use substrate_recipes.MapSet.Members.{IsValid, is_member, add_member_lem, remove_member_lem}

-- A vector set and a map set that hold the same.
pub record Agree (v : VecSet.State) (m : State) : Type 0 where
  pub vec_valid : Members.IsValid v
  pub map_valid : IsValid m
  pub same_members : (j : ℕ) → Members.is_member j v ≡ is_member j m
  pub same_size : length v.members ≡ m.member_count
  pub same_events : v.events ≡ m.events

pub data Op (Origin : Type 0) : Type 0 where
  add remove : Origin → Op Origin

module _ {Origin : Type 0} (overflow_checks : Bool) (frame : Frame Origin) where
  unfoldable pub vec_step : Op Origin → VecSet.State → Outcome Error (Unit {0}) × VecSet.State
  vec_step (add origin) v = VecSet.add_member frame origin v
  vec_step (remove origin) v = VecSet.remove_member frame origin v

  unfoldable pub map_step : Op Origin → State → Outcome Error (Unit {0}) × State
  map_step (add origin) m = add_member overflow_checks frame origin m
  map_step (remove origin) m = remove_member overflow_checks frame origin m

  -- The outcomes of a sequence of calls, and the state after it.
  unfoldable pub vec_run :
      List (Op Origin) → VecSet.State → List (Outcome Error (Unit {0})) × VecSet.State
  unfolding vec_step
  vec_run [] v = ([], v)
  vec_run (op ∷ ops) v =
      let (r, v') = vec_step op v in let (rs, v'') = vec_run ops v' in (r ∷ rs, v'')

  unfoldable pub map_run : List (Op Origin) → State → List (Outcome Error (Unit {0})) × State
  unfolding map_step
  map_run [] m = ([], m)
  map_run (op ∷ ops) m =
      let (r, m') = map_step op m in let (rs, m'') = map_run ops m' in (r ∷ rs, m'')

  unsigned_add :
      (origin : Origin) (v : VecSet.State) (m : State)
      → frame.ensure_signed origin ≡ none
      → Agree v m
      → ((VecSet.add_member frame origin v).0 ≡ (add_member overflow_checks frame origin m).0)
        × Agree (VecSet.add_member frame origin v).1 (add_member overflow_checks frame origin m).1
  unfolding VecSet.add_member add_member
  unsigned_add origin v m e a = rw e (refl, a)

  unsigned_remove :
      (origin : Origin) (v : VecSet.State) (m : State)
      → frame.ensure_signed origin ≡ none
      → Agree v m
      → ((VecSet.remove_member frame origin v).0 ≡ (remove_member overflow_checks frame origin m).0)
        × Agree
            (VecSet.remove_member frame origin v).1
            (remove_member overflow_checks frame origin m).1
  unfolding VecSet.remove_member remove_member
  unsigned_remove origin v m e a = rw e (refl, a)

  step_agrees :
      (op : Op Origin) (v : VecSet.State) (m : State)
      → Agree v m
      → ((vec_step op v).0 ≡ (map_step op m).0) × Agree (vec_step op v).1 (map_step op m).1
  unfolding vec_step map_step
  step_agrees (add origin) v m a = elim (Option-cases (frame.ensure_signed origin)) [
    | inl e ↦ unsigned_add origin v m e a
    | inr (who, e) ↦
        let (rv, mv, sv, ev, vv) = Members.add_member_lem frame origin who v e a.vec_valid in
        let (rm, mm, sm, em, vm) =
          add_member_lem overflow_checks frame origin who m e a.map_valid in
        let w = a.same_members who in
        (
          ground (arith, rv, rm, w, a.same_size),
          record {
            vec_valid = vv;
            map_valid = vm;
            same_members = λ j. ground (arith, mv j, mm j, w, a.same_members j, a.same_size);
            same_size = ground (arith, sv, sm, w, a.same_size);
            same_events = ground (arith, ev, em, w, a.same_size, a.same_events);
          },
        )
  ]
  step_agrees (remove origin) v m a = elim (Option-cases (frame.ensure_signed origin)) [
    | inl e ↦ unsigned_remove origin v m e a
    | inr (who, e) ↦
        let (rv, mv, sv, ev, vv) = Members.remove_member_lem frame origin who v e a.vec_valid in
        let (rm, mm, sm, em, vm) =
          remove_member_lem overflow_checks frame origin who m e a.map_valid in
        let w = a.same_members who in
        (
          ground (arith, rv, rm, w),
          record {
            vec_valid = vv;
            map_valid = vm;
            same_members = λ j. ground (arith, mv j, mm j, w, a.same_members j);
            same_size = ground (arith, sv, sm, w, a.same_size);
            same_events = ground (arith, ev, em, w, a.same_events);
          },
        )
  ]

  -- From a vector set and a map set that are valid and agree, every sequence of calls gives the same
  -- outcomes in both, in either build, and leaves them valid and in agreement: with the same members,
  -- sizes and events.
  pub run_agrees :
      (ops : List (Op Origin)) (v : VecSet.State) (m : State)
      → Agree v m
      → ((vec_run ops v).0 ≡ (map_run ops m).0) × Agree (vec_run ops v).1 (map_run ops m).1
  unfolding vec_run map_run
  run_agrees [] v m a = (refl, a)
  run_agrees (op ∷ ops) v m a =
      let (e, a') = step_agrees op v m a in
      let (es, a'') = run_agrees ops (vec_step op v).1 (map_step op m).1 a' in (ap₂ ◌∷◌ e es, a'')
