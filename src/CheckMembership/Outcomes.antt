-- ===== src/CheckMembership/Outcomes.antt =====
-- What a check returns and leaves, over the vector set.
use substrate_recipes.Prelude.{
  ℕ, ◌≡◌, some, none, Option, refl, sym, ap, ◌∙◌, Bool-cases, Option-cases, inl, inr, if◌then◌else◌,
  arith,
}
use substrate_recipes.Frame.{Frame, Outcome, ok, err, module_error, bad_origin}
use substrate_recipes.VecSet
use substrate_recipes.VecSet.Members
use substrate_recipes.CheckMembership.{
  State, Error, not_a_member, check_membership_tight, check_membership_loose,
}
use substrate_recipes.CheckMembership.Agree.{vec_accounts, contains-vec_accounts, tight_eq_loose}

-- How a check ends, by who signs.
abbrev pub verdict : Option ℕ → VecSet.State → Outcome Error (Unit {0})
verdict none v = err bad_origin
verdict (some who) v = if Members.is_member who v then ok tt else err (module_error not_a_member)

module _ {Origin : Type 0} (frame : Frame Origin) (origin : Origin) where
  pub check_membership_loose_lem :
      (s : State VecSet.State)
      → let (r, s') = check_membership_loose frame vec_accounts origin s in
        (r ≡ verdict (frame.ensure_signed origin) s.source) × (s'.source ≡ s.source)
  unfolding check_membership_loose
  check_membership_loose_lem s = elim (Option-cases (frame.ensure_signed origin)) [
    | inl e ↦ rw e (refl, refl)
    | inr (who, e) ↦ elim (Bool-cases (Members.is_member who s.source)) [
      | inl there ↦ rw (e, contains-vec_accounts who s.source, there) (refl, refl)
      | inr missing ↦ rw (e, contains-vec_accounts who s.source, missing) (refl, refl)
    ]
  ]

  pub source-check_membership_tight :
      (s : State VecSet.State) → (check_membership_tight frame origin s).1.source ≡ s.source
  unfolding check_membership_tight
  source-check_membership_tight s = ground arith

  -- Over a valid vector set, either check, whatever the events before it, lets a member through and
  -- refuses everyone else.
  pub checks_lem :
      (s t : State VecSet.State)
      → s.source ≡ t.source
      → Members.IsValid s.source
      → ((check_membership_tight frame origin s).0 ≡ verdict (frame.ensure_signed origin) s.source)
        × ((check_membership_loose frame vec_accounts origin t).0
            ≡ verdict (frame.ensure_signed origin) s.source)
  checks_lem s t same valid = (
    ap (λ x. x.0) (tight_eq_loose frame origin s valid) ∙ (check_membership_loose_lem s).0,
    (check_membership_loose_lem t).0 ∙ ap (verdict (frame.ensure_signed origin)) (sym same),
  )
