-- ===== src/OcwDemo.antt =====
-- The pallet of the off-chain worker demo (pallets/ocw-demo/src/lib.rs), on chain: the list of recent
-- numbers, the calls that add to it, and the validation of unsigned transactions.
pub mod Worker
pub mod Numbers
pub mod Chain
mod Tests
use Prim.Native.String.{String}
use Prim.Native.Char.{code}
use substrate_recipes.Prelude.{
  ℕ, ◌-◌, Bool, true, Option, none, some, List, [], ◌∷◌, ◌++◌, length, ◌==◌, if◌then◌else◌,
}
use substrate_recipes.Frame.{Frame, Outcome, Call, ok, signed, unsigned, modify, ◌>>=◌, ◌>>◌}

abbrev pub num_vec_len : ℕ
num_vec_len = 10

abbrev pub unsigned_txs_priority : ℕ
unsigned_txs_priority = 100

-- A byte string literal: the characters that the source uses are one byte each.
abbrev pub bytes : String → List ℕ
bytes String.[] = []
bytes (String.◌∷◌ c text) = code c ∷ bytes text

abbrev onchain_tx_key : List ℕ
onchain_tx_key = bytes "ocw-demo::storage::tx"

pub record Payload : Type 0 where
  pub number : ℕ
  pub public : ℕ

-- The call that made the entry, and its number.
pub record IndexingData : Type 0 where
  pub submitted_by : List ℕ
  pub submitted : ℕ

pub data Event : Type 0 where
  new_number : Option ℕ → ℕ → Event

-- `Call`, the calls of the pallet as values. A signature is a number.
pub data PalletCall : Type 0 where
  submit_number_signed_call submit_number_unsigned_call : ℕ → PalletCall
  submit_number_unsigned_with_signed_payload_call : Payload → ℕ → PalletCall

-- What the pallet takes from other crates: the SCALE codec of a block number and of `IndexingData`,
-- and the check of a signature under a payload.
pub record Codec : Type 0 where
  pub encode_block_number : ℕ → List ℕ
  pub encode_data : IndexingData → List ℕ
  pub decode_data : List ℕ → Option IndexingData
  pub verify : Payload → ℕ → Bool

-- `Numbers`, the entries of the off-chain index by their keys, and the events deposited so far.
pub record State : Type 0 where
  pub numbers : List ℕ
  pub index : List (List ℕ × List ℕ)
  pub events : List Event

abbrev deposit_event : Event → State → State
deposit_event e s = record s { events = s.events ++ (e ∷ []) }

-- `VecDeque::pop_front`
abbrev pub pop_front : List ℕ → List ℕ
pop_front [] = []
pop_front (x ∷ xs) = xs

pub append_or_replace_number : ℕ → State → State
append_or_replace_number number s =
    let numbers = if length s.numbers == num_vec_len then pop_front s.numbers else s.numbers in
    record s { numbers = numbers ++ (number ∷ []) }

-- The tags under which a valid transaction is known to the pool, and the rest of its validity.
pub record ValidTransaction : Type 0 where
  pub tag_prefix : String
  pub priority : ℕ
  pub provides : String
  pub longevity : ℕ
  pub propagate : Bool

pub data TransactionValidity : Type 0 where
  valid : ValidTransaction → TransactionValidity
  bad_proof invalid_call : TransactionValidity

abbrev pub valid_tx : String → TransactionValidity
valid_tx provide = valid (record {
  tag_prefix = "ocw-demo";
  priority = unsigned_txs_priority;
  provides = provide;
  longevity = 3;
  propagate = true;
})

module _ (codec : Codec) where
  pub derived_key : ℕ → List ℕ
  derived_key block_number = onchain_tx_key ++ (b'/' ∷ codec.encode_block_number block_number)

  -- `offchain_index::set` under the key of the current block.
  abbrev write_index : ℕ → String → ℕ → State → State
  write_index now name number s =
      let data' : IndexingData = record { submitted_by = bytes name; submitted = number } in
      record s { index = (derived_key now, codec.encode_data data') ∷ s.index }

  pub validate_unsigned : PalletCall → TransactionValidity
  validate_unsigned (submit_number_unsigned_call number) = valid_tx "submit_number_unsigned"
  validate_unsigned (submit_number_unsigned_with_signed_payload_call payload signature) =
      if codec.verify payload signature
      then valid_tx "submit_number_unsigned_with_signed_payload"
      else bad_proof
  validate_unsigned (submit_number_signed_call number) = invalid_call

  module _ {Origin : Type 0} (frame : Frame Origin) where
    pub submit_number_signed : ℕ → Origin → ℕ → Call State ⊥ (Unit {0})
    submit_number_signed now origin number = do
      who ← signed frame origin
      modify (append_or_replace_number number)
      modify (write_index now "submit_number_signed" number)
      modify (deposit_event (new_number (some who) number))

    pub submit_number_unsigned : ℕ → Origin → ℕ → Call State ⊥ (Unit {0})
    submit_number_unsigned now origin number = do
      unsigned frame origin
      modify (append_or_replace_number number)
      modify (write_index now "submit_number_unsigned" number)
      modify (deposit_event (new_number none number))

    pub submit_number_unsigned_with_signed_payload :
        ℕ → Origin → Payload → ℕ → Call State ⊥ (Unit {0})
    submit_number_unsigned_with_signed_payload now origin payload signature = do
      unsigned frame origin
      let number = payload.number
      modify (append_or_replace_number number)
      modify (write_index now "submit_number_unsigned_with_signed_payload" number)
      modify (deposit_event (new_number none number))

    -- The call that a value of `Call` stands for.
    pub dispatch : ℕ → Origin → PalletCall → Call State ⊥ (Unit {0})
    unfolding submit_number_signed submit_number_unsigned submit_number_unsigned_with_signed_payload
    dispatch now origin (submit_number_signed_call number) = submit_number_signed now origin number
    dispatch now origin (submit_number_unsigned_call number) =
        submit_number_unsigned now origin number
    dispatch now origin (submit_number_unsigned_with_signed_payload_call payload signature) =
        submit_number_unsigned_with_signed_payload now origin payload signature
