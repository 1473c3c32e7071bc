-- ===== src/OcwDemo/Worker.antt =====
-- The off-chain worker of the demo (pallets/ocw-demo/src/lib.rs): what a node does after each block,
-- with the keystore, the transaction pool, HTTP and the local storage around it.
pub mod Cache
pub mod Submits
pub mod Readback
pub mod Race
use Prim.Native.String.{String}
use substrate_recipes.Prelude.{
  ℕ, ◌+◌, ◌%◌, ◌^◌, Bool, true, false, Option, none, some, List, [], ◌∷◌, ◌++◌, ltb, ◌==◌, ◌&&◌,
  if◌then◌else◌,
}
use substrate_recipes.Frame.{
  Outcome, Call, ok, err, fail, ok_or, modify, module_error, pure, ◌>>=◌, ◌>>◌,
}
use substrate_recipes.OcwDemo.{
  Payload, IndexingData, PalletCall, submit_number_signed_call, submit_number_unsigned_call,
  submit_number_unsigned_with_signed_payload_call, Codec, derived_key,
}

pub record GithubInfo : Type 0 where
  pub login : List ℕ
  pub blog : List ℕ
  pub public_repos : ℕ

pub data Error : Type 0 where
  unknown_offchain_mux no_local_acct_for_signing offchain_signed_tx_error : Error
  offchain_unsigned_tx_error offchain_unsigned_tx_signed_payload_error http_fetching_error : Error

-- What an HTTP request comes to: it is not sent, the deadline passes, it fails, or there is a
-- response with its code and body.
pub data HttpResult : Type 0 where
  not_sent deadline_reached io_error : HttpResult
  response : ℕ → List ℕ → HttpResult

-- What one run finds around it: the public key of an account in the keystore, what the keystore
-- signs, which transactions the pool accepts, whether the lock is free, what a request comes to, and
-- the two parsers of other crates.
pub record Env : Type 0 where
  pub any_account : Option ℕ
  pub sign : Payload → Option ℕ
  pub accepts : PalletCall → Bool
  pub lock_is_free : Bool
  pub http : HttpResult
  pub from_utf8 : List ℕ → Option String
  pub from_json : String → Option GithubInfo

-- What outlasts a run: the value under `ocw-demo::gh-info` (`some none` where it does not decode), the
-- transactions that were submitted, and the number of requests made so far.
pub record Local : Type 0 where
  pub gh_info : Option (Option GithubInfo)
  pub pool : List PalletCall
  pub requests : ℕ

abbrev pub Run : Type 0 → Type 0
Run A = Call Local Error A

-- `try_into().unwrap_or(0)`, to a word of `bits` bits.
abbrev to_word : ℕ → ℕ → ℕ
to_word bits n = if ltb n (2 ^ bits) then n else 0

-- `IndexingData` as read under a key: the latest entry, if it decodes.
abbrev pub bytes_eq : List ℕ → List ℕ → Bool
bytes_eq [] [] = true
bytes_eq [] (y ∷ ys) = false
bytes_eq (x ∷ xs) [] = false
bytes_eq (x ∷ xs) (y ∷ ys) = x == y && bytes_eq xs ys

pub read_index : List ℕ → List (List ℕ × List ℕ) → Option (List ℕ)
read_index key [] = none
read_index key ((k, v) ∷ rest) = if bytes_eq k key then some v else read_index key rest

module _ (env : Env) where
  open env use {any_account, sign, accepts, lock_is_free, http, from_utf8, from_json}

  -- The pool takes a transaction that it accepts; the result says whether it did.
  abbrev submit : PalletCall → Run Bool
  submit call l =
      (ok (accepts call), if accepts call then record l { pool = l.pool ++ (call ∷ []) } else l)

  abbrev ensure_sent : Error → Bool → Run (Unit {0})
  ensure_sent e sent = if sent then pure tt else fail (module_error e)

  abbrev request_sent : Run HttpResult
  request_sent l = (ok http, record l { requests = l.requests + 1 })

  abbrev body_of : HttpResult → Run (List ℕ)
  body_of not_sent = fail (module_error http_fetching_error)
  body_of deadline_reached = fail (module_error http_fetching_error)
  body_of io_error = fail (module_error http_fetching_error)
  body_of (response code body) =
      if code == 200 then pure body else fail (module_error http_fetching_error)

  unfoldable pub fetch_from_remote : Run (List ℕ)
  fetch_from_remote = do result ← request_sent; body_of result

  -- Any error on the way is `HttpFetchingError` already, as `map_err` makes it.
  unfoldable pub fetch_n_parse : Run GithubInfo
  unfolding fetch_from_remote
  fetch_n_parse = do
    resp_bytes ← fetch_from_remote
    resp_str ← ok_or (from_utf8 resp_bytes) (module_error http_fetching_error)
    ok_or (from_json resp_str) (module_error http_fetching_error)

  abbrev fetch_and_store : Run (Unit {0})
  unfolding fetch_n_parse
  fetch_and_store = do info ← fetch_n_parse; modify λ l. record l { gh_info = some (some info) }

  abbrev unless_cached : Option (Option GithubInfo) → Run (Unit {0})
  unfolding fetch_and_store
  unless_cached (some (some info)) = pure tt
  unless_cached (some none) = if lock_is_free then fetch_and_store else pure tt
  unless_cached none = if lock_is_free then fetch_and_store else pure tt

  pub fetch_github_info : Run (Unit {0})
  unfolding unless_cached
  fetch_github_info l = unless_cached l.gh_info l

  pub offchain_signed_tx : ℕ → Run (Unit {0})
  offchain_signed_tx block_number = do
    let number = to_word 64 block_number
    ok_or any_account (module_error no_local_acct_for_signing)
    sent ← submit (submit_number_signed_call number)
    ensure_sent offchain_signed_tx_error sent

  pub offchain_unsigned_tx : ℕ → Run (Unit {0})
  offchain_unsigned_tx block_number = do
    let number = to_word 64 block_number
    sent ← submit (submit_number_unsigned_call number)
    ensure_sent offchain_unsigned_tx_error sent

  -- An account that cannot sign counts as none.
  pub offchain_unsigned_tx_signed_payload : ℕ → Run (Unit {0})
  offchain_unsigned_tx_signed_payload block_number = do
    let number = to_word 64 block_number
    public ← ok_or any_account (module_error no_local_acct_for_signing)
    let payload : Payload = record { number = number; public = public }
    signature ← ok_or (sign payload) (module_error no_local_acct_for_signing)
    sent ← submit (submit_number_unsigned_with_signed_payload_call payload signature)
    ensure_sent offchain_unsigned_tx_signed_payload_error sent

  -- The match on the kind of transaction. `usize_bits` is the width of a `usize`.
  pub transaction : ℕ → ℕ → Run (Unit {0})
  unfolding offchain_signed_tx offchain_unsigned_tx offchain_unsigned_tx_signed_payload
      fetch_github_info
  transaction usize_bits block_number =
      let kind = to_word usize_bits block_number % 4 in
      if kind == 1
      then offchain_signed_tx block_number
      else if kind == 2
      then offchain_unsigned_tx block_number
      else if kind == 3
      then offchain_unsigned_tx_signed_payload block_number
      else if kind == 0
      then fetch_github_info
      else fail (module_error unknown_offchain_mux)

-- What a run reports in the log, and what it leaves.
pub record Report : Type 0 where
  pub result : Outcome Error (Unit {0})
  pub retrieved : Option IndexingData
  pub local : Local

abbrev decode_some : Codec → Option (List ℕ) → Option IndexingData
decode_some codec none = none
decode_some codec (some bytes) = codec.decode_data bytes

pub offchain_worker : Codec → Env → ℕ → ℕ → List (List ℕ × List ℕ) → Local → Report
unfolding transaction
offchain_worker codec env usize_bits block_number index l =
    let (result, l') = transaction env usize_bits block_number l in
    record {
      result = result;
      retrieved = decode_some codec (read_index (derived_key codec block_number) index);
      local = l';
    }
