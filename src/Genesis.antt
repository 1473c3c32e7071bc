-- ===== src/Genesis.antt =====
-- The genesis of a chain with the super-runtime: its configuration
-- (runtimes/super-runtime/src/genesis.rs), and how the kitchen node finds one by a name
-- (nodes/kitchen-node/src/chain_spec.rs, nodes/kitchen-node/src/command.rs).
pub mod Keys
pub mod Build
pub mod Load
pub mod Grandpa
mod Tests
use Prim.Native.String
use Prim.Native.String.{String}
use text.Mathlib.Text.{◌==◌}
use mathlib.Core.Option
use substrate_recipes.Prelude.{
  ℕ, ◌^◌, Option, none, some, List, [], ◌∷◌, map, ◌⊎◌, inl, inr, ◌||◌, if◌then◌else◌,
}

-- What `sp_core` gives: the public key of the pair for a secret URI, if the URI parses, and the
-- account of a public key.
pub record Crypto : Type 0 where
  pub from_string : String → Option ℕ
  pub into_account : ℕ → ℕ

-- The code of the runtime, the endowed balances, the key of `sudo`, and the charity, which has nothing
-- to configure.
pub record GenesisConfig : Type 0 where
  pub system : List ℕ
  pub pallet_balances : List (ℕ × ℕ)
  pub pallet_sudo : ℕ
  pub charity : Unit {0}

-- `(k, 1 << 60)` for every account `k`.
abbrev pub endow : ℕ → ℕ × ℕ
endow k = (k, 2 ^ 60)

pub testnet_genesis : List ℕ → ℕ → List ℕ → GenesisConfig
testnet_genesis wasm_binary root_key endowed_accounts = record {
  system = wasm_binary;
  pallet_balances = map endow endowed_accounts;
  pallet_sudo = root_key;
  charity = tt;
}

infixl 5 ◌>>=◌
abbrev pub ◌>>=◌ : {A B : Type 0} → Option A → (A → Option B) → Option B
none >>= f = none
some a >>= f = f a

abbrev pub dev_seeds : List String
dev_seeds = "Alice" ∷ "Bob" ∷ "Alice//stash" ∷ "Bob//stash" ∷ []

abbrev pub local_seeds : List String
local_seeds =
    "Alice" ∷ "Bob" ∷ "Charlie" ∷ "Dave" ∷ "Eve" ∷ "Ferdie" ∷ "Alice//stash" ∷ "Bob//stash"
    ∷ "Charlie//stash" ∷ "Dave//stash" ∷ "Eve//stash" ∷ "Ferdie//stash" ∷ []

module _ (crypto : Crypto) where
  -- `none` is the panic of the `expect`.
  pub get_from_seed : String → Option ℕ
  get_from_seed seed = crypto.from_string (String.◌++◌ "//" seed)

  pub account_id_from_seed : String → Option ℕ
  unfolding get_from_seed
  account_id_from_seed seed = Option.map crypto.into_account (get_from_seed seed)

  -- A `vec!` of accounts, made in order.
  unfoldable pub account_ids : List String → Option (List ℕ)
  unfolding account_id_from_seed
  account_ids [] = some []
  account_ids (seed ∷ seeds) = do
    k ← account_id_from_seed seed
    ks ← account_ids seeds
    some (k ∷ ks)

  pub dev_genesis : List ℕ → Option GenesisConfig
  unfolding testnet_genesis account_ids
  dev_genesis wasm_binary = do
    root_key ← account_id_from_seed "Alice"
    endowed_accounts ← account_ids dev_seeds
    some (testnet_genesis wasm_binary root_key endowed_accounts)

pub data ChainType : Type 0 where
  development local : ChainType

-- A chain specification: its name, identifier and type, and what its closure makes when the chain is
-- begun, if it does not panic.
pub record ChainSpec (Config : Type 0) : Type 0 where
  pub name : String
  pub id : String
  pub chain_type : ChainType
  pub genesis : Option Config

-- `WASM_BINARY`, which the build makes, and the specification in a file of a given path.
pub record Host (Config : Type 0) : Type 0 where
  pub wasm_binary : Option (List ℕ)
  pub from_json_file : String → String ⊎ ChainSpec Config

module _ (crypto : Crypto) where
  abbrev pub dev_spec : List ℕ → ChainSpec GenesisConfig
  dev_spec wasm_binary = record {
    name = "Development";
    id = "dev";
    chain_type = development;
    genesis = dev_genesis crypto wasm_binary;
  }

  abbrev pub local_testnet_spec : List ℕ → ChainSpec GenesisConfig
  local_testnet_spec wasm_binary = record {
    name = "Local Testnet";
    id = "local_testnet";
    chain_type = local;
    genesis = do
      root_key ← account_id_from_seed crypto "Alice"
      endowed_accounts ← account_ids crypto local_seeds
      some (testnet_genesis wasm_binary root_key endowed_accounts);
  }

abbrev pub with_wasm :
    {Config : Type 0} → (List ℕ → ChainSpec Config) → Option (List ℕ) → String ⊎ ChainSpec Config
with_wasm make none = inl "Development wasm not available"
with_wasm make (some wasm_binary) = inr (make wasm_binary)

module _ (crypto : Crypto) (host : Host GenesisConfig) where
  unfoldable pub dev_config : String ⊎ ChainSpec GenesisConfig
  dev_config = with_wasm (dev_spec crypto) host.wasm_binary

  unfoldable pub local_testnet_config : String ⊎ ChainSpec GenesisConfig
  local_testnet_config = with_wasm (local_testnet_spec crypto) host.wasm_binary

  pub load_spec : String → String ⊎ ChainSpec GenesisConfig
  unfolding dev_config local_testnet_config
  load_spec id =
      if id == "dev"
      then dev_config
      else if id == "" || id == "local"
      then local_testnet_config
      else host.from_json_file id
