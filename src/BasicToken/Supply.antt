-- ===== src/BasicToken/Supply.antt =====
-- What the calls of the token do to the balances and to their sum.
use substrate_recipes.Prelude.{
  ℕ, ◌+◌, ◌-◌, ◌^◌, ◌≤◌, ◌<◌, ◌≡◌, ◌≢◌, true, false, some, List, [], ◌∷◌, ◌++◌, ltb, ◌==◌,
  if◌then◌else◌, arith, refl, Bool-cases, inl, inr, unwrap_or, lt→ltb, le→ltb, ◌⊎◌,
}
use substrate_recipes.Frame.{Frame, ok, err, panic, module_error}
use substrate_recipes.Frame.Storage.{StorageMap, insert}
use substrate_recipes.SortedVec.{contains}
use substrate_recipes.BasicToken.{
  State, get_balance, init, transfer, transferred, insufficient_funds, already_initialized,
}

abbrev pub balance_of : ℕ → StorageMap ℕ → ℕ
balance_of who m = unwrap_or (m who) 0

-- The sum of the balances of some accounts.
pub total : List ℕ → StorageMap ℕ → ℕ
total [] m = 0
total (a ∷ xs) m = balance_of a m + total xs m

abbrev pub AreDistinct : List ℕ → Type 0
AreDistinct [] = Unit
AreDistinct (a ∷ xs) = (contains a xs ≡ false) × AreDistinct xs

total-insert_other :
    (xs : List ℕ) (k v : ℕ) (m : StorageMap ℕ)
    → contains k xs ≡ false
    → total xs (insert k v m) ≡ total xs m
unfolding total
total-insert_other [] k v m h = refl
total-insert_other (a ∷ xs) k v m h = ground (arith, total-insert_other xs k v m)

total-insert :
    (xs : List ℕ) (k v : ℕ) (m : StorageMap ℕ)
    → AreDistinct xs
    → contains k xs ≡ true
    → total xs (insert k v m) + balance_of k m ≡ total xs m + v
unfolding total
total-insert [] k v m d h = cc
total-insert (a ∷ xs) k v m d h =
    ground (arith, total-insert xs k v m d.1, total-insert_other xs k v m)

module _ {Origin : Type 0} (frame : Frame Origin) where
  -- A transfer of a covered value by a signed sender to another account, whose balance with the
  -- value is a `u64`, goes through, moves the value, touches no third account and is reported.
  pub transfer_moves :
      (origin : Origin) (sender to value : ℕ) (s : State)
      → frame.ensure_signed origin ≡ some sender
      → sender ≢ to
      → value ≤ get_balance sender s
      → get_balance to s + value < 2 ^ 64
      → let (r, s') = transfer frame origin to value s in
        (r ≡ ok tt)
        × ((j : ℕ)
            → get_balance j s' ≡ (
                if j == to
                then get_balance to s + value
                else if j == sender
                then get_balance sender s - value
                else get_balance j s))
        × (s'.events ≡ s.events ++ (transferred sender to value ∷ []))
  unfolding transfer
  transfer_moves origin sender to value s e ne covered fits =
      rw
        (
          e,
          le→ltb (get_balance sender s) value covered,
          lt→ltb (get_balance to s + value) (2 ^ 64) fits,
        )
        (refl, λ j. ground arith, refl)

  -- Whatever a transfer by a signed sender to another account does, the sum of the balances of any
  -- distinct accounts among which both are stays as it is.
  pub total-transfer :
      (origin : Origin) (sender to value : ℕ) (s : State) (xs : List ℕ)
      → frame.ensure_signed origin ≡ some sender
      → sender ≢ to
      → AreDistinct xs
      → contains sender xs ≡ true
      → contains to xs ≡ true
      → total xs (transfer frame origin to value s).1.balances ≡ total xs s.balances
  unfolding transfer
  total-transfer origin sender to value s xs e ne d hs ht =
      elim (Bool-cases (ltb (get_balance sender s) value)) [
        | inl short ↦ rw (e, short)
        | inr covered ↦ elim (Bool-cases (ltb (get_balance to s + value) (2 ^ 64))) [
          | inr over ↦ rw (e, covered, over)
          | inl fits ↦
              let m = insert sender (get_balance sender s - value) s.balances in
              rw (e, covered, fits)
                (ground (
                  arith,
                  total-insert xs sender (get_balance sender s - value) s.balances d hs,
                  total-insert xs to (get_balance to s + value) m d ht,
                ))
        ]
      ]

  -- A transfer by a signed sender to itself, of a covered value that with the balance is a `u64`,
  -- returns ok and creates that value: the balance grows by it, and no other balance changes.
  pub transfer_to_self_mints :
      (origin : Origin) (sender value : ℕ) (s : State)
      → frame.ensure_signed origin ≡ some sender
      → value ≤ get_balance sender s
      → get_balance sender s + value < 2 ^ 64
      → let (r, s') = transfer frame origin sender value s in
        (r ≡ ok tt)
        × ((j : ℕ)
            → get_balance j s'
              ≡ (if j == sender then get_balance sender s + value else get_balance j s))
  unfolding transfer
  transfer_to_self_mints origin sender value s e covered fits =
      rw
        (
          e,
          le→ltb (get_balance sender s) value covered,
          lt→ltb (get_balance sender s + value) (2 ^ 64) fits,
        )
        (refl, λ j. ground arith)

  -- A transfer by a signed sender that is not covered ends in the error, and one that is covered
  -- but would take the balance of the receiver beyond `u64` ends in a panic; neither changes
  -- anything.
  pub transfer_fails :
      (origin : Origin) (sender to value : ℕ) (s : State)
      → frame.ensure_signed origin ≡ some sender
      → (get_balance sender s < value) ⊎ (2 ^ 64 ≤ get_balance to s + value)
      → transfer frame origin to value s ≡ (
        if ltb (get_balance sender s) value then err (module_error insufficient_funds) else panic,
        s,
      )
  unfolding transfer
  transfer_fails origin sender to value s e h =
      elim (Bool-cases (ltb (get_balance sender s) value)) [
        | inl short ↦ rw (e, short)
        | inr covered ↦ rw (e, covered, le→ltb (get_balance to s + value) (2 ^ 64) (ground arith))
      ]

  -- The token can be initialised once: the first signed caller gets the whole supply, and from then
  -- on the call fails and changes nothing.
  pub init_once :
      (origin origin' : Origin) (first second : ℕ) (s : State)
      → frame.ensure_signed origin ≡ some first
      → frame.ensure_signed origin' ≡ some second
      → s.is_init ≡ false
      → let (r, s') = init frame origin s in
        (r ≡ ok tt)
        × (get_balance first s' ≡ s.total_supply)
        × (init frame origin' s' ≡ (err (module_error already_initialized), s'))
  unfolding init
  init_once origin origin' first second s e e' h = ground arith
