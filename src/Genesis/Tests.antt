-- ===== src/Genesis/Tests.antt =====
-- A dev chain on the small runtime, with the pot at account 900.
use substrate_recipes.Prelude.{◌≤◌, ◌≡◌, refl, some, [], ◌∷◌, inl, inr, arith, if◌then◌else◌}
use text.Mathlib.Text.{◌==◌}
use substrate_recipes.Crowdfund.ChildTrie.{Trie}
use substrate_recipes.Mock.{mock_frame}
use substrate_recipes.Mock.Bank.{bank, bank_laws}
use substrate_recipes.Mock.Genesis.{balances, balances-IsBalances, keyring, keyring-AreKeys}
use substrate_recipes.Charity.{pot, donate}
use substrate_recipes.Charity.Pot.{here, next, donates}
use substrate_recipes.Genesis.{GenesisConfig, ChainSpec, Host, Crypto, dev_seeds, load_spec}
use substrate_recipes.Genesis.Build.{Chain, build_storage, begun, pot_alive}
use substrate_recipes.Genesis.Load.{Starts, load_spec-Begins}
use substrate_recipes.Genesis.Grandpa
use substrate_recipes.Genesis.Grandpa.{
  hybrid_load_spec, hybrid-load_spec, map_spec, with_authorities, named_authorities,
}

abbrev crypto : Crypto
crypto = keyring dev_seeds

abbrev host : Host GenesisConfig
host = record { wasm_binary = some (0 ∷ []); from_json_file = λ path. inl "no such file" }

load_spec-Begins_example :
    (spec : ChainSpec GenesisConfig) × (load_spec crypto host "dev" ≡ inr spec)
    × Starts 900 bank balances-IsBalances (keyring-AreKeys dev_seeds) spec.genesis
load_spec-Begins_example =
    load_spec-Begins 900 bank balances-IsBalances host "dev" (0 ∷ []) (keyring-AreKeys dev_seeds)
      refl refl (omega arith) (omega arith) (omega arith)

abbrev config : GenesisConfig
config = record { system = 0 ∷ []; pallet_balances = (1, 100) ∷ []; pallet_sudo = 1; charity = tt }

abbrev chain : Chain Trie
chain = begun 900 bank balances config ((1, 100) ∷ [])

chain_begins : build_storage 900 bank balances config ≡ some chain
unfolding build_storage
chain_begins = refl

pot_alive_example : 1 ≤ pot 900 bank (donate 900 bank mock_frame (some 1) 30 chain.charity).1
pot_alive_example =
    pot_alive 900 bank balances-IsBalances bank_laws mock_frame config chain chain_begins
      (next here (donates (some 1) 30 (λ who e. ground (arith, e))))

abbrev hybrid_host : Host Grandpa.GenesisConfig
hybrid_host = record { wasm_binary = some (9 ∷ []); from_json_file = λ path. inl "no such file" }

hybrid-load_spec_example :
    hybrid_load_spec crypto (λ uri. some (if uri == "//Alice" then 7 else 8)) hybrid_host "local"
    ≡ map_spec (with_authorities (9 ∷ []) ((7, 1) ∷ (8, 1) ∷ [])) (load_spec crypto host "local")
hybrid-load_spec_example =
    hybrid-load_spec crypto (λ uri. some (if uri == "//Alice" then 7 else 8)) host hybrid_host
      "local" (0 ∷ []) (9 ∷ []) 7 8 refl refl refl refl refl
