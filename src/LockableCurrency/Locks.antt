-- ===== src/LockableCurrency/Locks.antt =====
-- The lock of each account after any calls.
use substrate_recipes.Prelude.{
  ℕ, ◌≡◌, ◌≢◌, refl, ap, subst, ◌∙◌, Option, none, some, List, [], ◌∷◌, arith, Bool-cases,
  Option-cases, inl, inr, ◌==◌, if◌then◌else◌, All,
}
use Prim.Native.Nat.{max}
use substrate_recipes.Frame.{Frame}
use substrate_recipes.LockableCurrency.{
  State, Lockable, example_id, lock_capital, extend_lock, unlock_all,
}
use Prim.Native.String.{String}

-- What the trait documents: `set_lock` of some amount makes the lock or replaces it, `extend_lock` makes it or keeps
-- the stronger of the two, `remove_lock` takes it away; other accounts keep their locks.
pub record IsLockable {Bank : Type 0} (c : Lockable Bank) : Type 0 where
  pub set_lock_lem :
      (id : String) (who amount : ℕ) (b : Bank)
      → amount ≢ 0
      → (c.locked_under id who (c.set_lock id who amount b) ≡ amount)
        × ((j : ℕ)
            → j ≢ who
            → c.locked_under id j (c.set_lock id who amount b) ≡ c.locked_under id j b)
  pub extend_lock_lem :
      (id : String) (who amount : ℕ) (b : Bank)
      → (c.locked_under id who (c.extend_lock id who amount b)
          ≡ max (c.locked_under id who b) amount)
        × ((j : ℕ)
            → j ≢ who
            → c.locked_under id j (c.extend_lock id who amount b) ≡ c.locked_under id j b)
  pub remove_lock_lem :
      (id : String) (who : ℕ) (b : Bank)
      → (c.locked_under id who (c.remove_lock id who b) ≡ 0)
        × ((j : ℕ) → j ≢ who → c.locked_under id j (c.remove_lock id who b) ≡ c.locked_under id j b)

-- The calls of the pallet as values.
pub data PalletCall : Type 0 where
  lock extend : ℕ → PalletCall
  unlock : PalletCall

-- A lock of nothing is left to the currency.
abbrev pub IsDefinite : PalletCall → Type 0
IsDefinite (lock x) = x ≢ 0
IsDefinite (extend x) = Unit
IsDefinite unlock = Unit

module _ {Origin Bank : Type 0} (c : Lockable Bank) (frame : Frame Origin) where
  abbrev pub dispatch : Origin → PalletCall → State Bank → State Bank
  dispatch o (lock x) s = (lock_capital frame c o x s).1
  dispatch o (extend x) s = (extend_lock frame c o x s).1
  dispatch o unlock s = (unlock_all frame c o s).1

  unfoldable pub run : List (Origin × PalletCall) → State Bank → State Bank
  run [] s = s
  run ((o, call) ∷ calls) s = run calls (dispatch o call s)

  -- The amount under lock after a call, from the amount before.
  abbrev after : PalletCall → ℕ → ℕ
  after (lock x) old = x
  after (extend x) old = max old x
  after unlock old = 0

  abbrev after_by : Option ℕ → ℕ → PalletCall → ℕ → ℕ
  after_by none j call old = old
  after_by (some who) j call old = if who == j then after call old else old

  -- The amount that an account has under lock after some calls: only its own count.
  unfoldable pub lock_of : ℕ → List (Origin × PalletCall) → ℕ → ℕ
  lock_of j [] old = old
  lock_of j ((o, call) ∷ calls) old = lock_of j calls (after_by (frame.ensure_signed o) j call old)

  -- One account's lock becomes `f` of what it was, and the others are kept.
  locked_if :
      (f : ℕ → ℕ) (who j : ℕ) (b b' : Bank)
      → (c.locked_under example_id who b' ≡ f (c.locked_under example_id who b))
        × ((i : ℕ) → i ≢ who → c.locked_under example_id i b' ≡ c.locked_under example_id i b)
      → c.locked_under example_id j b'
        ≡ (if who == j then f (c.locked_under example_id j b) else c.locked_under example_id j b)
  locked_if f who j b b' (own, others) = elim (Bool-cases (who == j)) [
    | inl e ↦
        let same : who ≡ j = ground arith in
        rw e
          (subst (λ i. c.locked_under example_id i b' ≡ f (c.locked_under example_id i b)) same own)
    | inr e ↦ rw e (others j (ground arith))
  ]

  locked-dispatch :
      IsLockable c
      → (o : Origin) (call : PalletCall) (j : ℕ) (s : State Bank) → IsDefinite call
      → c.locked_under example_id j (dispatch o call s).bank
        ≡ after_by (frame.ensure_signed o) j call (c.locked_under example_id j s.bank)
  unfolding lock_capital extend_lock unlock_all
  locked-dispatch law o (lock x) j s some_amount = elim (Option-cases (frame.ensure_signed o)) [
    | inl e ↦ rw e refl
    | inr (who, e) ↦
        let b' = c.set_lock example_id who x s.bank in
        rw e (
          locked_if (λ old. x) who j s.bank b'
            (law.set_lock_lem example_id who x s.bank some_amount))
  ]
  locked-dispatch law o (extend x) j s d = elim (Option-cases (frame.ensure_signed o)) [
    | inl e ↦ rw e refl
    | inr (who, e) ↦
        let b' = c.extend_lock example_id who x s.bank in
        rw e (
          locked_if (λ old. max old x) who j s.bank b'
            (law.extend_lock_lem example_id who x s.bank))
  ]
  locked-dispatch law o unlock j s d = elim (Option-cases (frame.ensure_signed o)) [
    | inl e ↦ rw e refl
    | inr (who, e) ↦
        let b' = c.remove_lock example_id who s.bank in
        rw e (locked_if (λ old. 0) who j s.bank b' (law.remove_lock_lem example_id who s.bank))
  ]

  -- Over a currency that does what the trait documents: after any calls by any origins, no lock of
  -- nothing among them, the lock of every account is what its own signed calls make it, in their
  -- order. A lock sets the amount, an extension raises it to its own amount if that is more, and an
  -- unlock takes it away; calls by others do not count.
  pub locked-run :
      IsLockable c
      → (calls : List (Origin × PalletCall)) (j : ℕ) (s : State Bank)
      → All (λ (o, call). IsDefinite call) calls
      → c.locked_under example_id j (run calls s).bank
        ≡ lock_of j calls (c.locked_under example_id j s.bank)
  unfolding run lock_of
  locked-run law [] j s d = refl
  locked-run law ((o, call) ∷ calls) j s (d, ds) =
      locked-run law calls j (dispatch o call s) ds
      ∙ ap (lock_of j calls) (locked-dispatch law o call j s d)
