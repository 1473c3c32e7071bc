-- ===== src/Genesis/Build.antt =====
-- What the pallets make of a genesis configuration, and the chain that begins with it: the balances,
-- and the charity, whose build is in pallets/charity/src/lib.rs.
use substrate_recipes.Prelude.{
  ℕ, ◌+◌, ◌*◌, ◌^◌, ◌≤◌, ◌<◌, ◌≡◌, ◌≢◌, refl, sym, ap, ◌∙◌, Option, none, some, List, [], ◌∷◌, map,
  length, All, arith,
}
use substrate_recipes.Frame.{Frame}
use substrate_recipes.Frame.Currency.{Currency, IsCurrency}
use substrate_recipes.BasicToken.Supply.{AreDistinct}
use substrate_recipes.Charity.Pot.{Reach, pot_never_shrinks}
use substrate_recipes.Charity.{State, pot, build}
use substrate_recipes.Genesis.{GenesisConfig, endow, ◌>>=◌}

-- The genesis build of the balances pallet, `none` where it panics, and the operation of its currency
-- that sets a balance.
pub record Balances (Bank : Type 0) : Type 0 where
  pub build_balances : List (ℕ × ℕ) → Option Bank
  pub make_free_balance_be : ℕ → ℕ → Bank → Bank

abbrev pub sum : List (ℕ × ℕ) → ℕ
sum [] = 0
sum ((k, x) ∷ bs) = x + sum bs

abbrev pub owner : ℕ × ℕ → ℕ
owner (k, x) = k

-- As documented: the build wants distinct accounts and no balance below the minimum, and then gives
-- each its balance; a balance that is set, and not below the minimum, is what it is set to.
pub record IsBalances {Bank : Type 0} (c : Currency Bank) (p : Balances Bank) : Type 0 where
  pub build_lem :
      (bs : List (ℕ × ℕ))
      → AreDistinct (map owner bs)
      → All (λ b. c.minimum_balance ≤ b.1) bs
      → sum bs < c.balance_limit
      → (bank : Bank) × (p.build_balances bs ≡ some bank)
        × All (λ b. c.free_balance b.0 bank ≡ b.1) bs
  pub make_lem :
      (a x : ℕ) (bank : Bank)
      → c.minimum_balance ≤ x
      → (c.free_balance a (p.make_free_balance_be a x bank) ≡ x)
        × ((j : ℕ)
            → j ≢ a
            → c.free_balance j (p.make_free_balance_be a x bank) ≡ c.free_balance j bank)

-- The key of `sudo`, and the state that the charity is in.
pub record Chain (Bank : Type 0) : Type 0 where
  pub sudo : ℕ
  pub charity : State Bank

module _ {Bank : Type 0} (account_id : ℕ) (c : Currency Bank) (p : Balances Bank) where
  abbrev pub begun : GenesisConfig → Bank → Chain Bank
  unfolding build
  begun config bank = record {
    sudo = config.pallet_sudo;
    charity = record { bank = build account_id c p.make_free_balance_be bank; events = [] };
  }

  -- The builds of the pallets, in the order in which the runtime names them.
  unfoldable pub build_storage : GenesisConfig → Option (Chain Bank)
  unfolding begun
  build_storage config = do bank ← p.build_balances config.pallet_balances; some (begun config bank)

pub owners : (ks : List ℕ) → map owner (map endow ks) ≡ ks
owners [] = refl
owners (k ∷ ks) = ap (λ js. k ∷ js) (owners ks)

pub enough : (m : ℕ) (ks : List ℕ) → m ≤ 2 ^ 60 → All (λ b. m ≤ b.1) (map endow ks)
enough m [] h = tt
enough m (k ∷ ks) h = (h, enough m ks h)

pub sum-endow :
    {A : Type 0} (f : A → ℕ) (ts : List A) → sum (map endow (map f ts)) ≡ length ts * 2 ^ 60
sum-endow f [] = refl
sum-endow f (t ∷ ts) = omega (arith, sum-endow f ts)

module _ {Bank : Type 0} (account_id : ℕ) (c : Currency Bank) {p : Balances Bank}
    (genuine : IsBalances c p) where
  pub endowed :
      {A : Type 0} (f : A → ℕ) (bank : Bank) (ts : List A)
      → All (λ b. c.free_balance b.0 bank ≡ b.1) (map endow (map f ts))
      → All (λ t. f t ≢ account_id) ts
      → All (λ t. c.free_balance (f t) (build account_id c p.make_free_balance_be bank) ≡ 2 ^ 60) ts
  unfolding build
  endowed f bank [] h out = tt
  endowed f bank (t ∷ ts) (h, hs) (out, outs) = (
    (genuine.make_lem account_id c.minimum_balance bank (omega arith)).1 (f t) out ∙ h,
    endowed f bank ts hs outs,
  )

  pot-begun :
      (config : GenesisConfig) (o : Option Bank) (chain : Chain Bank)
      → (o >>= λ bank. some (begun account_id c p config bank)) ≡ some chain
      → pot account_id c chain.charity ≡ c.minimum_balance
  unfolding build
  pot-begun config none chain e = cc
  pot-begun config (some bank) chain e =
      let same : begun account_id c p config bank ≡ chain = cc in
      rw (sym same) ((genuine.make_lem account_id c.minimum_balance bank (omega arith)).0)

  -- Over a currency and a balances pallet that do what is documented, whatever the genesis
  -- configuration is: if the chain begins, no sequence of donations by others than the pot,
  -- allocations by others than root, and absorbed imbalances that fit into the issuance brings the
  -- pot of the charity below the minimum balance.
  pub pot_alive :
      {Origin : Type 0} (laws : IsCurrency c) (frame : Frame Origin) (config : GenesisConfig)
      (chain : Chain Bank) {t : State Bank}
      → build_storage account_id c p config ≡ some chain
      → Reach account_id c laws frame chain.charity t
      → c.minimum_balance ≤ pot account_id c t
  unfolding build_storage
  pot_alive laws frame config chain e r =
      let same = pot-begun config (p.build_balances config.pallet_balances) chain e in
      omega (arith, same, pot_never_shrinks account_id c laws frame r (omega (arith, same)))
