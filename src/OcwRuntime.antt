-- ===== src/OcwRuntime.antt =====
-- How the runtime of the off-chain worker demo signs a transaction for a worker
-- (runtimes/ocw-runtime/src/lib.rs).
pub mod Signed
mod Tests
use substrate_recipes.Prelude.{ℕ, Option, none, some, List}
use substrate_recipes.Prelude.Words.{saturating_sub}

abbrev pub block_hash_count : ℕ
block_hash_count = 2400

-- What the runtime takes from other crates: the eras, the payload for a call and its extension, whose
-- making can fail, the parts of a payload and its encoding, and the signature of an encoding by the key
-- of the application.
pub record Primitives (Era Call Payload Additional : Type 0) (Extra : Type 0) : Type 0 where
  pub mortal : ℕ → ℕ → Era
  pub new_payload : Call → Extra → Option Payload
  pub deconstruct : Payload → Call × Extra × Additional
  pub encoded : Payload → List ℕ
  pub sign : List ℕ → ℕ → Option ℕ

-- The extension of a transaction: the checks hold nothing but the era, the nonce and the tip.
pub record SignedExtra (Era : Type 0) : Type 0 where
  pub check_spec_version : Unit {0}
  pub check_tx_version : Unit {0}
  pub check_genesis : Unit {0}
  pub check_era : Era
  pub check_nonce : ℕ
  pub check_weight : Unit {0}
  pub charge_transaction_payment : ℕ

-- What goes with a call: the address, the signature and the extension.
pub record SignaturePayload (Era : Type 0) : Type 0 where
  pub address : ℕ
  pub signature : ℕ
  pub extra : SignedExtra Era

infixl 5 ◌>>=◌
abbrev pub ◌>>=◌ : {A B : Type 0} → Option A → (A → Option B) → Option B
none >>= f = none
some a >>= f = f a

module _ {Era Call Payload Additional : Type 0}
    (prims : Primitives Era Call Payload Additional (SignedExtra Era)) where
  open prims use {mortal, new_payload, deconstruct, encoded, sign}

  -- The extension that the runtime makes at a block for an index.
  abbrev pub extra_at : ℕ → ℕ → SignedExtra Era
  extra_at block_number index =
      let period = block_hash_count in
      let current_block = saturating_sub block_number 1 in
      let tip : ℕ = 0 in
      record {
        check_spec_version = tt;
        check_tx_version = tt;
        check_genesis = tt;
        check_era = mortal period current_block;
        check_nonce = index;
        check_weight = tt;
        charge_transaction_payment = tip;
      }

  -- The call and the extension as the payload holds them go out.
  abbrev send : ℕ → ℕ → Call × SignedExtra Era × Additional → Call × SignaturePayload Era
  send account signature (call, extra, _) =
      (call, record { address = account; signature = signature; extra = extra })

  unfoldable pub create_transaction : ℕ → Call → ℕ → ℕ → ℕ → Option (Call × SignaturePayload Era)
  create_transaction block_number call public account index = do
    raw_payload ← new_payload call (extra_at block_number index)
    signature ← sign (encoded raw_payload) public
    some (send account signature (deconstruct raw_payload))
