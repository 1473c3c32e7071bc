-- ===== src/Genesis/Load.antt =====
-- What the kitchen node loads by a name (nodes/kitchen-node/src/command.rs) begins a chain.
use Prim.Native.String.{String}
use text.Mathlib.Text.{◌==◌}
use substrate_recipes.Prelude.{
  ℕ, ◌*◌, ◌^◌, ◌≤◌, ◌<◌, ◌≡◌, ◌≢◌, refl, Bool, true, false, ◌||◌, Option, some, List, map, length,
  All, inr, arith, if◌then◌else◌,
}
use substrate_recipes.Frame.Currency.{Currency}
use substrate_recipes.BasicToken.Supply.{AreDistinct}
use substrate_recipes.Charity.{pot, build}
use substrate_recipes.Genesis.{
  Crypto, GenesisConfig, testnet_genesis, endow, ◌>>=◌, account_id_from_seed, account_ids,
  local_seeds, dev_seeds, dev_genesis, local_testnet_config, load_spec, ChainSpec, Host, dev_config,
  dev_spec, local_testnet_spec,
}
use substrate_recipes.Genesis.Keys.{
  text_in, distinct_texts, AreKeys, account, account_id_known, accounts, accounts-AreDistinct,
}
use substrate_recipes.Genesis.Build.{
  Balances, IsBalances, Chain, begun, build_storage, owners, enough, sum-endow, endowed,
}

module _ {Bank : Type 0} (account_id : ℕ) (c : Currency Bank) {p : Balances Bank}
    (genuine : IsBalances c p) {crypto : Crypto} {seeds : List String}
    (keys : AreKeys crypto seeds) where
  -- What a chain begins with.
  pub record Begins (config : GenesisConfig) : Type 0 where
    pub chain : Chain Bank
    pub builds : build_storage account_id c p config ≡ some chain
    pub root : chain.sudo ≡ account keys "Alice"
    pub pot_begins : pot account_id c chain.charity ≡ c.minimum_balance
    pub endowed : All (λ s. c.free_balance (account keys s) chain.charity.bank ≡ 2 ^ 60) seeds

  testnet-Begins :
      (wasm_binary : List ℕ)
      → AreDistinct (map (account keys) seeds)
      → length seeds * 2 ^ 60 < c.balance_limit
      → c.minimum_balance ≤ 2 ^ 60
      → All (λ s. account keys s ≢ account_id) seeds
      → Begins (testnet_genesis wasm_binary (account keys "Alice") (map (account keys) seeds))
  unfolding testnet_genesis build_storage
  testnet-Begins wasm_binary distinct fits small out =
      let ks = map (account keys) seeds in
      let (bank, built, each) =
        genuine.build_lem (map endow ks) (rw (owners ks) distinct)
          (enough c.minimum_balance ks small) (rw (sum-endow (account keys) seeds) fits) in
      record {
        chain = begun account_id c p (testnet_genesis wasm_binary (account keys "Alice") ks) bank;
        builds = rw built refl;
        root = refl;
        pot_begins =
            unfold build in (genuine.make_lem account_id c.minimum_balance bank (omega arith)).0;
        endowed = endowed account_id c genuine (account keys) bank seeds each out;
      }

-- The seeds of the accounts that a name's chain endows.
abbrev pub named_seeds : String → List String
named_seeds name = if name == "dev" then dev_seeds else local_seeds

-- The facts on texts that a computation shows.
abbrev IsFit : List String → Type 0
IsFit ts =
    (text_in "Alice" ts ≡ true)
    × All (λ t. text_in t ts ≡ true) ts
    × (distinct_texts ts ≡ true)
    × (length ts ≤ 12)

dev-IsFit : IsFit dev_seeds
dev-IsFit = (refl, ground arith, refl, omega arith)

local-IsFit : IsFit local_seeds
local-IsFit = (refl, ground arith, refl, omega arith)

module _ {Bank : Type 0} (account_id : ℕ) (c : Currency Bank) {p : Balances Bank}
    (genuine : IsBalances c p) {crypto : Crypto} where
  -- The closure of a chain specification makes a configuration that begins a chain.
  pub record Starts {seeds : List String} (keys : AreKeys crypto seeds)
      (made : Option GenesisConfig) : Type 0 where
    pub config : GenesisConfig
    pub is_made : made ≡ some config
    pub begins : Begins account_id c genuine keys config

  starts_lem :
      {seeds : List String} (keys : AreKeys crypto seeds) (wasm_binary : List ℕ)
      → IsFit seeds
      → 12 * 2 ^ 60 < c.balance_limit
      → c.minimum_balance ≤ 2 ^ 60
      → All (λ s. account keys s ≢ account_id) seeds
      → Starts keys (
          account_id_from_seed crypto "Alice" >>= λ root_key.
          account_ids crypto seeds >>= λ endowed_accounts.
          some (testnet_genesis wasm_binary root_key endowed_accounts))
  starts_lem {seeds} keys wasm_binary (alice, among, distinct, short) fits small out = record {
    config = testnet_genesis wasm_binary (account keys "Alice") (map (account keys) seeds);
    is_made = rw (account_id_known keys "Alice" alice, accounts keys seeds among) refl;
    begins =
        testnet-Begins account_id c genuine keys wasm_binary
          (accounts-AreDistinct keys seeds among distinct) (omega (arith, short, fits)) small out;
  }

  module _ (host : Host GenesisConfig) where
    -- `load_spec` after its two tests.
    loaded :
        (is_dev is_local : Bool) (name : String) (wasm_binary : List ℕ)
        (keys : AreKeys crypto (if is_dev then dev_seeds else local_seeds))
        → (is_dev || is_local) ≡ true
        → host.wasm_binary ≡ some wasm_binary
        → 12 * 2 ^ 60 < c.balance_limit
        → c.minimum_balance ≤ 2 ^ 60
        → All (λ s. account keys s ≢ account_id) (if is_dev then dev_seeds else local_seeds)
        → (spec : ChainSpec GenesisConfig) × ((if is_dev
              then dev_config crypto host
              else if is_local
              then local_testnet_config crypto host
              else host.from_json_file name)
            ≡ inr spec)
          × Starts keys spec.genesis
    unfolding dev_config local_testnet_config dev_genesis
    loaded true is_local name wasm_binary keys named compiled fits small out = (
      dev_spec crypto wasm_binary,
      rw compiled refl,
      starts_lem keys wasm_binary dev-IsFit fits small out,
    )
    loaded false true name wasm_binary keys named compiled fits small out = (
      local_testnet_spec crypto wasm_binary,
      rw compiled refl,
      starts_lem keys wasm_binary local-IsFit fits small out,
    )
    loaded false false name wasm_binary keys named compiled fits small out = cc

    -- Over a currency and a balances pallet that do what is documented, with the runtime compiled:
    -- each of the names "dev", "" and "local" loads a specification, and the chain of that begins,
    -- where the URIs of its seeds parse to keys of different accounts, none of them the pot, the
    -- currency holds more than 12 times 2^60, and its minimum balance is at most 2^60. Alice has
    -- the key of `sudo`, the accounts of the seeds own 2^60 each, and the pot of the charity the
    -- minimum.
    pub load_spec-Begins :
        (name : String) (wasm_binary : List ℕ) (keys : AreKeys crypto (named_seeds name))
        → (name == "dev" || (name == "" || name == "local")) ≡ true
        → host.wasm_binary ≡ some wasm_binary
        → 12 * 2 ^ 60 < c.balance_limit
        → c.minimum_balance ≤ 2 ^ 60
        → All (λ s. account keys s ≢ account_id) (named_seeds name)
        → (spec : ChainSpec GenesisConfig) × (load_spec crypto host name ≡ inr spec)
          × Starts keys spec.genesis
    unfolding load_spec
    load_spec-Begins name = loaded (name == "dev") (name == "" || name == "local") name
