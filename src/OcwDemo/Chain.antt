-- ===== src/OcwDemo/Chain.antt =====
-- The worker and the chain together: what the worker of a block submits is in the next block, and the
-- list of numbers shows the blocks whose workers submit.
pub mod Blocks
use substrate_recipes.Prelude.{
  ℕ, zero, suc, ◌%◌, ◌^◌, ◌≤◌, ◌<◌, ◌≡◌, ◌≢◌, refl, sym, ap, subst, ◌∙◌, Bool, true, false, some,
  List, [], ◌∷◌, ◌++◌, length, arith, ◌==◌, if◌then◌else◌, Bool-cases, inl, inr,
}
use mathlib.Core.List.{append-nil}
use substrate_recipes.Frame.{Frame}
use substrate_recipes.OcwDemo.{
  State, Codec, Payload, PalletCall, submit_number_signed_call, submit_number_unsigned_call,
  submit_number_unsigned_with_signed_payload_call, TransactionValidity, valid, bad_proof,
  invalid_call, validate_unsigned, valid_tx, dispatch, num_vec_len,
}
use substrate_recipes.OcwDemo.Numbers.{
  last, submitted, dispatch-numbers, last-append, last_short, length-last,
}
use substrate_recipes.OcwDemo.Worker.{Env, Local, offchain_worker}
use substrate_recipes.OcwDemo.Worker.Submits.{
  submitted_signed, submitted_unsigned, submitted_with_payload, pool-fetch_github_info,
}

-- The chain and the node, between two blocks.
pub record Both : Type 0 where
  pub chain : State
  pub node : Local

abbrev is_valid : TransactionValidity → Bool
is_valid (valid v) = true
is_valid bad_proof = false
is_valid invalid_call = false

-- What the worker of a block submits: its number, unless it is a multiple of four.
unfoldable pub due : ℕ → List ℕ
due n = if n % 4 == 0 then [] else n ∷ []

-- What the workers of all blocks below a number submit.
unfoldable pub all_due : ℕ → List ℕ
unfolding due
all_due zero = []
all_due (suc n) = all_due n ++ due n

module _ {Origin : Type 0} (codec : Codec) (frame : Frame Origin) (env : Env) (usize_bits : ℕ)
    (account nobody : Origin) where
  -- A block executes what is in the pool: a signed call for the account of the node, an unsigned one if
  -- it is valid.
  unfoldable pub include : ℕ → PalletCall → State → State
  include now (submit_number_signed_call x) s =
      (dispatch codec frame now account (submit_number_signed_call x) s).1
  include now (submit_number_unsigned_call x) s =
      if is_valid (validate_unsigned codec (submit_number_unsigned_call x))
      then (dispatch codec frame now nobody (submit_number_unsigned_call x) s).1
      else s
  include now (submit_number_unsigned_with_signed_payload_call p sig) s =
      let call = submit_number_unsigned_with_signed_payload_call p sig in
      if is_valid (validate_unsigned codec call)
      then (dispatch codec frame now nobody call s).1
      else s

  unfoldable pub include_all : ℕ → List PalletCall → State → State
  unfolding include
  include_all now [] s = s
  include_all now (call ∷ calls) s = include_all now calls (include now call s)

  -- A block with the pool, which is empty then, and the worker after it.
  unfoldable pub block : ℕ → Both → Both
  unfolding include_all
  block now b =
      let s = include_all now b.node.pool b.chain in
      record {
        chain = s;
        node =
            (offchain_worker codec env usize_bits now s.index (record b.node { pool = [] })).local;
      }

  -- The blocks from 1 to a number.
  unfoldable pub blocks : ℕ → Both → Both
  unfolding block
  blocks zero b = b
  blocks (suc n) b = block (suc n) (blocks n b)

  -- What the two sides promise each other: the node has a key of the account, what it signs verifies,
  -- its pool takes everything, and the origins are those of the account and of nobody.
  pub record AreConnected : Type 0 where
    pub who : ℕ
    pub signature : Payload → ℕ
    pub has_key : env.any_account ≡ some who
    pub signs : (p : Payload) → env.sign p ≡ some (signature p)
    pub verifies : (p : Payload) (s : ℕ) → env.sign p ≡ some s → codec.verify p s ≡ true
    pub accepts : (call : PalletCall) → env.accepts call ≡ true
    pub account_signs : frame.ensure_signed account ≡ some who
    pub nobody_is_none : frame.ensure_none nobody ≡ true
