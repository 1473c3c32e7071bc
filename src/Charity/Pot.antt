-- ===== src/Charity/Pot.antt =====
-- What gets into the pot, and who can take out of it.
use substrate_recipes.Prelude.{
  ℕ, ◌+◌, ◌≤◌, ◌<◌, ◌≡◌, ◌≢◌, refl, false, some, [], ◌∷◌, ◌++◌, arith, Bool-cases, Option-cases,
  inl, inr, if◌then◌else◌, if◌then◌else◌,
}
use substrate_recipes.Frame.{Frame, ok, err, bad_origin, ◌>>=◌}
use substrate_recipes.Frame.Currency.{done, Attempt-cases, Currency, IsCurrency}
use substrate_recipes.Charity.{
  State, pot, donate, allocate, on_nonzero_unbalanced, donation_received, funds_allocated,
}

module _ {Origin Bank : Type 0} (account_id : ℕ) (c : Currency Bank) (laws : IsCurrency c)
    (frame : Frame Origin) where
  -- A donation that the currency lets through returns ok, adds the amount to the pot, and is reported
  -- with the pot as it is then.
  pub donate_lem :
      (origin : Origin) (donor amount : ℕ) (s : State Bank) (b : Bank)
      → frame.ensure_signed origin ≡ some donor
      → donor ≢ account_id
      → c.transfer donor account_id amount s.bank ≡ done b
      → let (r, s') = donate account_id c frame origin amount s in
        let after = pot account_id c s + amount in
        (r ≡ ok tt)
        × (pot account_id c s' ≡ after)
        × (s'.events ≡ s.events ++ (donation_received donor amount after ∷ []))
  unfolding donate
  donate_lem origin donor amount s b e ne t =
      let (credit, _, _) = laws.transfer_lem donor account_id amount s.bank b ne t in
      rw e (rw (t, ◌>>=◌) (rw t (refl, credit, rw credit refl)))

  -- For a transfer out of the pot to another account that the currency lets through: an allocation
  -- by root returns ok, pays exactly the amount to the receiver and is reported with the pot as it
  -- is then; by anyone else it gets the error, and neither the balance of the receiver nor the
  -- events change.
  pub allocate_lem :
      (origin : Origin) (dest amount : ℕ) (s : State Bank) (b : Bank)
      → c.transfer account_id dest amount s.bank ≡ done b
      → account_id ≢ dest
      → let (r, s') = allocate account_id c frame origin dest amount s in
        let allowed = frame.ensure_root origin in
        (r ≡ (if allowed then ok tt else err bad_origin))
        × (c.free_balance dest s'.bank
            ≡ (if allowed then c.free_balance dest s.bank + amount else c.free_balance dest s.bank))
        × (s'.events ≡ (
            if allowed
            then s.events ++ (funds_allocated dest amount (pot account_id c s') ∷ [])
            else s.events))
  unfolding allocate
  allocate_lem origin dest amount s b t ne =
      let (credit, _, _) = laws.transfer_lem account_id dest amount s.bank b ne t in
      elim (Bool-cases (frame.ensure_root origin)) [
        | inl allowed ↦ rw allowed (rw (t, ◌>>=◌) (rw t (refl, credit, refl)))
        | inr denied ↦ rw denied (refl, refl, refl)
      ]

  -- A call that is not made by root or by the pot, and an imbalance that fits into the issuance.
  pub data Step (s : State Bank) : State Bank → Type 0 where
    donates :
        (origin : Origin) (amount : ℕ)
        → ((who : ℕ) → frame.ensure_signed origin ≡ some who → who ≢ account_id)
        → Step s (donate account_id c frame origin amount s).1
    allocates :
        (origin : Origin) (dest amount : ℕ)
        → frame.ensure_root origin ≡ false
        → Step s (allocate account_id c frame origin dest amount s).1
    absorbs :
        (amount : ℕ)
        → c.total_issuance s.bank + amount < c.balance_limit
        → Step s (on_nonzero_unbalanced account_id c amount s)

  pub data Reach (s : State Bank) : State Bank → Type 0 where
    here : Reach s s
    next : {t u : State Bank} → Reach s t → Step t u → Reach s u

  donate-le :
      (origin : Origin) (amount : ℕ) (s : State Bank)
      → ((who : ℕ) → frame.ensure_signed origin ≡ some who → who ≢ account_id)
      → pot account_id c s ≤ pot account_id c (donate account_id c frame origin amount s).1
  unfolding donate
  donate-le origin amount s outside = elim (Option-cases (frame.ensure_signed origin)) [
    | inl e ↦ rw e (omega arith)
    | inr (who, e) ↦ rw e (elim (Attempt-cases (c.transfer who account_id amount s.bank)) [
      | inl (_, short) ↦ rw (short, ◌>>=◌) (rw short (omega arith))
      | inr (b, t) ↦
          let (credit, _, _) = laws.transfer_lem who account_id amount s.bank b (outside who e) t in
          rw (t, ◌>>=◌) (rw t (omega (arith, credit)))
    ])
  ]

  Step-le :
      {s t : State Bank}
      → Step s t
      → c.minimum_balance ≤ pot account_id c s
      → pot account_id c s ≤ pot account_id c t
  unfolding allocate on_nonzero_unbalanced
  Step-le {s} (donates origin amount outside) alive = donate-le origin amount s outside
  Step-le (allocates origin dest amount denied) alive = rw denied (omega arith)
  Step-le {s} (absorbs amount fits) alive =
      let (credit, _, _) = laws.resolve_creating_lem account_id amount s.bank fits in
      omega (arith, credit (omega (arith, alive)))

  -- From a pot that is alive, no sequence of donations by others than the pot, allocations by
  -- others than root, and absorbed imbalances that fit into the issuance makes the pot smaller.
  pub pot_never_shrinks :
      {s t : State Bank}
      → Reach s t
      → c.minimum_balance ≤ pot account_id c s
      → pot account_id c s ≤ pot account_id c t
  pot_never_shrinks here alive = omega arith
  pot_never_shrinks (next r st) alive =
      let earlier = pot_never_shrinks r alive in
      omega (arith, earlier, Step-le st (omega (arith, alive, earlier)))
