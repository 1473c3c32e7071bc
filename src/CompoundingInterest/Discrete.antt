-- ===== src/CompoundingInterest/Discrete.antt =====
-- The discrete account: its interest, its deposits and its withdrawals.
use substrate_recipes.Prelude.{
  ℕ, ◌+◌, ◌-◌, ◌*◌, ◌%◌, ◌^◌, ◌≤◌, ◌<◌, ◌≡◌, refl, Bool, some, [], ◌∷◌, ◌++◌, arith, lt→ltb, ◌==◌,
  if◌then◌else◌, Bool-cases, inl, inr,
}
use substrate_recipes.Frame.{Frame, ok, panic}
use substrate_recipes.CompoundingInterest.{
  State, Arithmetic, discrete_interest, apply_interest, on_finalize, deposit_discrete,
  withdraw_discrete, deposited_discrete, withdrew_discrete, discrete_interest_applied,
}

-- What `Percent * u64` promises: a twentieth of the value, rounded.
pub record IsPercent {Fixed : Type 0} (a : Arithmetic Fixed) : Type 0 where
  pub five_below : (x : ℕ) → 20 * a.percent_mul 5 x ≤ x + 20
  pub five_above : (x : ℕ) → x ≤ 20 * a.percent_mul 5 x + 20

module _ {Fixed : Type 0} (overflow_checks : Bool) (a : Arithmetic Fixed) (laws : IsPercent a) where
  -- Where half as much again as the balance, and ten, is a `u64`, the hook returns ok. At a block
  -- whose number is a multiple of ten the balance grows by the interest, which is reported, and at
  -- any other block nothing changes; the interest is half of the balance, give or take ten.
  pub on_finalize_lem :
      (n : ℕ) (s : State Fixed)
      → 3 * s.discrete_account + 20 < 2 ^ 65
      → let (r, s') = on_finalize overflow_checks a n s in
        let interest = discrete_interest overflow_checks a s.discrete_account * 10 in
        (r ≡ ok tt)
        × (s' ≡ (
            if n % 10 == 0
            then record s {
              discrete_account = s.discrete_account + interest;
              events = s.events ++ (discrete_interest_applied interest ∷ []);
            }
            else s))
        × (2 * interest ≤ s.discrete_account + 20)
        × (s.discrete_account ≤ 2 * interest + 20)
  unfolding on_finalize apply_interest
  on_finalize_lem n s fits =
      let balance = s.discrete_account in
      let p = a.percent_mul 5 balance in
      let below = laws.five_below balance in
      let above = laws.five_above balance in
      elim (Bool-cases (n % 10 == 0)) [
        | inr other ↦ rw other (refl, refl, omega (arith, below), omega (arith, above))
        | inl due ↦
            rw
              (
                due,
                lt→ltb (p * 10) (2 ^ 64) (omega (arith, fits, below)),
                lt→ltb (balance + p * 10) (2 ^ 64) (omega (arith, fits, below)),
              )
              (refl, refl, omega (arith, below), omega (arith, above))
      ]

module _ {Fixed Origin : Type 0} (overflow_checks : Bool) (frame : Frame Origin) where
  -- A deposit by a signed origin, whose sum with the balance is a `u64`, and then a withdrawal of
  -- the same amount return ok, give the balance of before, and are both reported.
  pub withdraw-deposit :
      (origin : Origin) (who val : ℕ) (s : State Fixed)
      → frame.ensure_signed origin ≡ some who
      → s.discrete_account + val < 2 ^ 64
      → let (r, s1) = deposit_discrete overflow_checks frame origin val s in
        let (r', s2) = withdraw_discrete overflow_checks frame origin val s1 in
        (r ≡ ok tt)
        × (r' ≡ ok tt)
        × (s2.discrete_account ≡ s.discrete_account)
        × (s2.events ≡ (s.events ++ (deposited_discrete val ∷ [])) ++ (withdrew_discrete val ∷ []))
  unfolding deposit_discrete withdraw_discrete
  withdraw-deposit origin who val s e fits = ground arith

  -- A withdrawal by a signed origin of more than the balance is not refused: in a build that checks
  -- overflow it panics and changes nothing, and in one that does not it returns ok and the balance
  -- becomes the difference plus the number of `u64` values.
  pub overdraw_lem :
      (origin : Origin) (who val : ℕ) (s : State Fixed)
      → frame.ensure_signed origin ≡ some who
      → s.discrete_account < val
      → val < 2 ^ 64
      → let (r, s') = withdraw_discrete overflow_checks frame origin val s in
        (r ≡ (if overflow_checks then panic else ok tt))
        × (s'.discrete_account
            ≡ (if overflow_checks then s.discrete_account else s.discrete_account + 2 ^ 64 - val))
  unfolding withdraw_discrete
  overdraw_lem origin who val s e over small = ground arith
