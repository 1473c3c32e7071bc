-- ===== src/Genesis/Grandpa.antt =====
-- The genesis of a chain with the minimal GRANDPA runtime
-- (runtimes/minimal-grandpa-runtime/src/genesis.rs), and how the hybrid node finds one by a name
-- (nodes/hybrid-consensus/src/chain_spec.rs, nodes/hybrid-consensus/src/command.rs).
use Prim.Native.String
use Prim.Native.String.{String}
use text.Mathlib.Text.{◌==◌}
use substrate_recipes.Prelude.{
  ℕ, ◌≡◌, refl, ap, Bool, true, false, Option, none, some, List, [], ◌∷◌, map, ◌⊎◌, inl, inr, ◌||◌,
  if◌then◌else◌,
}
use substrate_recipes.Genesis
use substrate_recipes.Genesis.{
  Crypto, endow, account_id_from_seed, account_ids, dev_seeds, local_seeds, ◌>>=◌, ChainSpec, Host,
  with_wasm, development, local, ChainType, load_spec, dev_config, local_testnet_config,
  dev_genesis, testnet_genesis,
}

-- The authorities with their weights stand where the super-runtime has the charity.
pub record GenesisConfig : Type 0 where
  pub frame_system : List ℕ
  pub pallet_balances : List (ℕ × ℕ)
  pub pallet_sudo : ℕ
  pub pallet_grandpa : List (ℕ × ℕ)

abbrev weigh : ℕ → ℕ × ℕ
weigh x = (x, 1)

unfoldable pub grandpa_genesis : List ℕ → List ℕ → ℕ → List ℕ → GenesisConfig
grandpa_genesis wasm_binary initial_authorities root_key endowed_accounts = record {
  frame_system = wasm_binary;
  pallet_balances = map endow endowed_accounts;
  pallet_sudo = root_key;
  pallet_grandpa = map weigh initial_authorities;
}

-- `ed25519` makes the keys of the authorities from a secret URI.
module _ (crypto : Crypto) (ed25519 : String → Option ℕ) where
  unfoldable pub authority_keys_from_seed : String → Option ℕ
  authority_keys_from_seed seed = ed25519 (String.◌++◌ "//" seed)

  pub grandpa_dev_genesis : List ℕ → Option GenesisConfig
  unfolding grandpa_genesis authority_keys_from_seed
  grandpa_dev_genesis wasm_binary = do
    alice ← authority_keys_from_seed "Alice"
    root_key ← account_id_from_seed crypto "Alice"
    endowed_accounts ← account_ids crypto dev_seeds
    some (grandpa_genesis wasm_binary (alice ∷ []) root_key endowed_accounts)

  abbrev hybrid_dev_spec : List ℕ → ChainSpec GenesisConfig
  hybrid_dev_spec wasm_binary = record {
    name = "Development";
    id = "dev";
    chain_type = development;
    genesis = grandpa_dev_genesis wasm_binary;
  }

  abbrev hybrid_local_spec : List ℕ → ChainSpec GenesisConfig
  hybrid_local_spec wasm_binary = record {
    name = "Local Testnet";
    id = "local_testnet";
    chain_type = local;
    genesis = do
      alice ← authority_keys_from_seed "Alice"
      bob ← authority_keys_from_seed "Bob"
      root_key ← account_id_from_seed crypto "Alice"
      endowed_accounts ← account_ids crypto local_seeds
      some (grandpa_genesis wasm_binary (alice ∷ bob ∷ []) root_key endowed_accounts);
  }

  module _ (host : Host GenesisConfig) where
    unfoldable pub hybrid_dev_config : String ⊎ ChainSpec GenesisConfig
    hybrid_dev_config = with_wasm hybrid_dev_spec host.wasm_binary

    unfoldable pub hybrid_local_testnet_config : String ⊎ ChainSpec GenesisConfig
    hybrid_local_testnet_config = with_wasm hybrid_local_spec host.wasm_binary

    unfoldable pub hybrid_load_spec : String → String ⊎ ChainSpec GenesisConfig
    unfolding hybrid_dev_config hybrid_local_testnet_config
    hybrid_load_spec id =
        if id == "dev"
        then hybrid_dev_config
        else if id == "" || id == "local"
        then hybrid_local_testnet_config
        else host.from_json_file id

abbrev pub with_authorities : List ℕ → List (ℕ × ℕ) → Genesis.GenesisConfig → GenesisConfig
with_authorities wasm_binary authorities config = record {
  frame_system = wasm_binary;
  pallet_balances = config.pallet_balances;
  pallet_sudo = config.pallet_sudo;
  pallet_grandpa = authorities;
}

abbrev pub map_spec : {A B : Type 0} → (A → B) → String ⊎ ChainSpec A → String ⊎ ChainSpec B
map_spec f (inl e) = inl e
map_spec f (inr spec) = inr (record {
  name = spec.name;
  id = spec.id;
  chain_type = spec.chain_type;
  genesis = spec.genesis >>= λ config. some (f config);
})

-- The authorities of the chain that a name loads: Alice, and but for "dev" also Bob, each of weight 1.
abbrev pub named_authorities : String → ℕ → ℕ → List (ℕ × ℕ)
named_authorities name alice bob =
    if name == "dev" then (alice, 1) ∷ [] else (alice, 1) ∷ (bob, 1) ∷ []

module _ (crypto : Crypto) (ed25519 : String → Option ℕ) (host : Host Genesis.GenesisConfig)
    (host' : Host GenesisConfig) where
  made :
      (f : ℕ → List ℕ → GenesisConfig) (authorities : List (ℕ × ℕ)) (wasm_binary code : List ℕ)
      (root : Option ℕ) (endowed : Option (List ℕ))
      → ((r : ℕ) (e : List ℕ)
          → f r e ≡ with_authorities code authorities (testnet_genesis wasm_binary r e))
      → (root >>= λ r. endowed >>= λ e. some (f r e)) ≡ (
          (root >>= λ r. endowed >>= λ e. some (testnet_genesis wasm_binary r e)) >>= λ config.
          some (with_authorities code authorities config))
  made f authorities wasm_binary code none endowed h = refl
  made f authorities wasm_binary code (some r) none h = refl
  made f authorities wasm_binary code (some r) (some e) h = ap some (h r e)

  abbrev spec_of :
      String → String → ChainType → Option GenesisConfig → String ⊎ ChainSpec GenesisConfig
  spec_of name id chain_type genesis =
      inr (record { name = name; id = id; chain_type = chain_type; genesis = genesis })

  loaded :
      (is_dev is_local : Bool) (name : String) (wasm_binary code : List ℕ) (alice bob : ℕ)
      → ed25519 "//Alice" ≡ some alice
      → ed25519 "//Bob" ≡ some bob
      → host.wasm_binary ≡ some wasm_binary
      → host'.wasm_binary ≡ some code
      → (is_dev || is_local) ≡ true
      → (if is_dev
          then hybrid_dev_config crypto ed25519 host'
          else if is_local
          then hybrid_local_testnet_config crypto ed25519 host'
          else host'.from_json_file name)
        ≡ map_spec
            (with_authorities code (if is_dev then (alice, 1) ∷ [] else (alice, 1) ∷ (bob, 1) ∷ []))
            (if is_dev
              then dev_config crypto host
              else if is_local
              then local_testnet_config crypto host
              else host.from_json_file name)
  unfolding hybrid_dev_config hybrid_local_testnet_config dev_config local_testnet_config
      grandpa_dev_genesis dev_genesis authority_keys_from_seed testnet_genesis grandpa_genesis
  loaded true is_local name wasm_binary code alice bob a b w w' named =
      rw (w, w', a)
        (ap (spec_of "Development" "dev" development) (
          made (grandpa_genesis code (alice ∷ [])) ((alice, 1) ∷ []) wasm_binary code
            (account_id_from_seed crypto "Alice") (account_ids crypto dev_seeds) (λ r e. refl)))
  loaded false true name wasm_binary code alice bob a b w w' named =
      rw (w, w', a, b)
        (ap (spec_of "Local Testnet" "local_testnet" local) (
          made (grandpa_genesis code (alice ∷ bob ∷ [])) ((alice, 1) ∷ (bob, 1) ∷ []) wasm_binary
            code (account_id_from_seed crypto "Alice") (account_ids crypto local_seeds)
            (λ r e. refl)))
  loaded false false name wasm_binary code alice bob a b w w' named = cc

  -- For each of the names "dev", "" and "local", where the code of its own runtime is compiled into
  -- either node, and the keys of Alice and Bob as authorities parse: the hybrid node loads what the
  -- kitchen node does, panics included, but with the code of its own runtime, and in place of the charity
  -- with Alice as the authority of the first, Alice and Bob as those of the others, each of weight 1.
  pub hybrid-load_spec :
      (name : String) (wasm_binary code : List ℕ) (alice bob : ℕ)
      → ed25519 "//Alice" ≡ some alice
      → ed25519 "//Bob" ≡ some bob
      → host.wasm_binary ≡ some wasm_binary
      → host'.wasm_binary ≡ some code
      → (name == "dev" || (name == "" || name == "local")) ≡ true
      → hybrid_load_spec crypto ed25519 host' name
        ≡ map_spec
            (with_authorities code (named_authorities name alice bob))
            (load_spec crypto host name)
  unfolding hybrid_load_spec load_spec
  hybrid-load_spec name = loaded (name == "dev") (name == "" || name == "local") name
