-- ===== src/OcwDemo/Tests.antt =====
-- The off-chain worker demo with a codec of one number a block: calls in a row, a request that is made
-- once, a payload that is signed, and an entry that is read back.
use substrate_recipes.Prelude.{
  ℕ, ◌+◌, ◌≡◌, ◌≢◌, ◌≤◌, refl, ap, true, none, some, Option, List, [], ◌∷◌, ◌++◌, arith, length,
  ◌==◌,
}
use substrate_recipes.Mock.{Origin}
use substrate_recipes.Prelude.{not, is_some, ltb, ◌&&◌, inr}
use substrate_recipes.Frame.{Frame, ok}
use substrate_recipes.OcwDemo.{
  State, Codec, Payload, IndexingData, PalletCall, submit_number_signed_call,
  submit_number_unsigned_call, num_vec_len, dispatch, append_or_replace_number,
}
use substrate_recipes.OcwDemo.Chain.{Both, AreConnected, blocks, all_due, due}
use substrate_recipes.OcwDemo.Chain.Blocks.{numbers-blocks}
use substrate_recipes.OcwDemo.Numbers.{drop, last, run, all_submitted, run-numbers}
use substrate_recipes.OcwDemo.Worker.{
  Env, Local, GithubInfo, response, offchain_worker, fetch_n_parse, fetch_from_remote,
}
use substrate_recipes.OcwDemo.Worker.Cache.{Round, run_rounds, fetched_once}
use substrate_recipes.OcwDemo.Worker.Race.{
  Clock, Lockable, IsBlockAndTime, System, waiting, holding, look, try_lock, fetch,
}
use substrate_recipes.OcwDemo.Worker.Race.Exclusive.{
  Reach, here, next, looks, tries, passes, IsPrompt, AllPrompt, Reach-exclusive,
}
use substrate_recipes.OcwDemo.Worker.Race.Overtaken.{overtaken}
use substrate_recipes.OcwDemo.Worker.Readback.{IsCodec, entry_of, retrieved-dispatch}

abbrev decode_numbers : List ℕ → Option IndexingData
decode_numbers [] = none
decode_numbers (x ∷ xs) = some (record { submitted_by = xs; submitted = x })

abbrev codec : Codec
codec = record {
  encode_block_number = λ n. n ∷ [];
  encode_data = λ d. d.submitted ∷ d.submitted_by;
  decode_data = decode_numbers;
  verify = λ payload signature. signature == payload.number + payload.public;
}

list_head : List ℕ → ℕ
list_head [] = 0
list_head (x ∷ xs) = x

codec-IsCodec : IsCodec codec
unfolding list_head
codec-IsCodec = record { decode-encode = λ d. refl; encode-injective = λ m n h. ap list_head h }

-- The sender none is a transaction that no account has signed.
abbrev frame : Frame Origin
frame = record {
  ensure_signed = λ o. o;
  ensure_root = λ o. not (is_some o);
  ensure_none = λ o. not (is_some o);
}

abbrev genesis : State
genesis = record { numbers = []; index = []; events = [] }

abbrev full : State
full = record { numbers = 1 ∷ 2 ∷ 3 ∷ 4 ∷ 5 ∷ 6 ∷ 7 ∷ 8 ∷ 9 ∷ 10 ∷ []; index = []; events = [] }

abbrev calls : List (ℕ × Origin × PalletCall)
calls =
    (1, some 7, submit_number_signed_call 11)
    ∷ (2, none, submit_number_signed_call 12)
    ∷ (2, none, submit_number_unsigned_call 13)
    ∷ []

run-numbers_example :
    ((run codec frame calls full).numbers
      ≡ last num_vec_len (full.numbers ++ all_submitted codec frame calls))
    × (length (run codec frame calls full).numbers ≤ num_vec_len)
run-numbers_example = run-numbers codec frame calls full (omega arith)

last_ten : (run codec frame calls full).numbers ≡ 3 ∷ 4 ∷ 5 ∷ 6 ∷ 7 ∷ 8 ∷ 9 ∷ 10 ∷ 11 ∷ 13 ∷ []
unfolding run dispatch append_or_replace_number
last_ten = refl

abbrev info : GithubInfo
info = record { login = 1 ∷ []; blog = 2 ∷ []; public_repos = 3 }

abbrev env : Env
env = record {
  any_account = some 5;
  sign = λ payload. some (payload.number + payload.public);
  accepts = λ call. true;
  lock_is_free = true;
  http = response 200 (1 ∷ []);
  from_utf8 = λ body. some "{}";
  from_json = λ text. some info;
}

abbrev cold : Local
cold = record { gh_info = none; pool = []; requests = 0 }

abbrev rounds : List Round
rounds =
    record { env = env; block_number = 8; index = [] }
    ∷ record { env = env; block_number = 12; index = [] }
    ∷ []

fetched_once_example :
    let report = offchain_worker codec env 32 4 [] cold in
    let l' = run_rounds codec 32 rounds report.local in
    (report.result ≡ ok tt) × (l'.gh_info ≡ some (some info)) × (l'.requests ≡ 0 + 1)
fetched_once_example =
    fetched_once codec 32 env 4 [] (1 ∷ []) "{}" info rounds cold refl (omega arith) refl refl refl
      refl refl

keystore-verifies : (p : Payload) (s : ℕ) → env.sign p ≡ some s → codec.verify p s ≡ true
keystore-verifies p s h = ground arith

retrieved-dispatch_example :
    let s' = (dispatch codec frame 3 none (submit_number_unsigned_call 9) genesis).1 in
    ((offchain_worker codec env 32 3 s'.index cold).retrieved
      ≡ some (entry_of (submit_number_unsigned_call 9)))
    × ((n : ℕ)
        → n ≢ 3
        → (offchain_worker codec env 32 n s'.index cold).retrieved
          ≡ (offchain_worker codec env 32 n [] cold).retrieved)
unfolding dispatch
retrieved-dispatch_example =
    let s' = (dispatch codec frame 3 none (submit_number_unsigned_call 9) genesis).1 in
    retrieved-dispatch codec frame codec-IsCodec env 32 3 none (submit_number_unsigned_call 9)
      genesis s' cold refl

connected : AreConnected codec frame env 32 (some 5) none
connected = record {
  who = 5;
  signature = λ p. p.number + p.public;
  has_key = refl;
  signs = λ p. refl;
  verifies = keystore-verifies;
  accepts = λ call. refl;
  account_signs = refl;
  nobody_is_none = refl;
}

abbrev both : Both
both = record { chain = genesis; node = cold }

numbers-blocks_example :
    (blocks codec frame env 32 (some 5) none 14 both).chain.numbers ≡ last num_vec_len (all_due 14)
numbers-blocks_example =
    numbers-blocks codec frame env 32 (some 5) none connected 14 both refl refl (omega arith)
      (omega arith)

due_below_14 : last num_vec_len (all_due 14) ≡ 1 ∷ 2 ∷ 3 ∷ 5 ∷ 6 ∷ 7 ∷ 9 ∷ 10 ∷ 11 ∷ 13 ∷ []
unfolding last drop all_due due
due_below_14 = refl

-- A deadline is the block and the time up to which it has not expired.
abbrev lockable : Lockable Clock
lockable = record {
  deadline = λ blocks millis now. record { block = now.block + blocks; time = now.time + millis };
  has_expired = λ d now. ltb d.block now.block && ltb d.time now.time;
}

lockable-IsBlockAndTime : IsBlockAndTime lockable
lockable-IsBlockAndTime = record {
  expired_both = λ blocks millis start now e. (ground (arith, e), ground (arith, e));
  both_expired = λ blocks millis start now b t. ground (arith, b, t);
}

abbrev resting : System Clock
resting = record {
  phases = λ i. waiting;
  lock = none;
  clock = record { block = 7; time = 1000 };
  local = cold;
}

-- Two runs find nothing stored, and the first of them gets the lock, a block and five seconds before
-- the second one tries.
abbrev first_locks : System Clock
first_locks = try_lock lockable 1 (look 2 (look 1 resting))

abbrev second_tries : System Clock
second_tries =
    try_lock lockable 2 (record first_locks { clock = record { block = 8; time = 6000 } })

two_runs : Reach lockable (λ i. env) resting second_tries
unfolding look try_lock
two_runs =
    next
      (next (next (next (next here (looks 1 refl)) (looks 2 refl)) (tries 1 refl))
        (passes (record { block = 8; time = 6000 })))
      (tries 2 refl)

two_runs-AllPrompt : AllPrompt two_runs
unfolding AllPrompt IsPrompt two_runs look try_lock
two_runs-AllPrompt = (
  (
    (
      ((tt, λ i start e. inr (ground arith)), λ i start e. inr (ground arith)),
      λ i start e. inr (ground arith),
    ),
    λ i start e. inr (ground arith),
  ),
  λ i start e. inr (ground arith),
)

first_holds : second_tries.phases 1 ≡ holding (record { block = 7; time = 1000 })
unfolding look try_lock
first_holds = refl

Reach-exclusive_example : second_tries.phases 2 ≢ holding (record { block = 8; time = 6000 })
Reach-exclusive_example =
    Reach-exclusive lockable (λ i. env) lockable-IsBlockAndTime two_runs two_runs-AllPrompt
      (λ i. refl) 1 2 (record { block = 7; time = 1000 }) (record { block = 8; time = 6000 })
      (λ e. absurd (omega (arith, e))) first_holds

-- Four blocks and five seconds later.
abbrev late : System Clock
late = record first_locks { clock = record { block = 11; time = 6000 } }

late_holds :
    (late.phases 1 ≡ holding (record { block = 7; time = 1000 }))
    × (late.lock ≡ some (lockable.deadline 3 4000 (record { block = 7; time = 1000 })))
unfolding look try_lock
late_holds = (refl, refl)

overtaken_example :
    let t = try_lock lockable 2 late in
    let u = fetch env 1 t in
    (t.phases 1 ≡ holding (record { block = 7; time = 1000 }))
    × (t.phases 2 ≡ holding (record { block = 11; time = 6000 }))
    × (u.lock ≡ none)
    × (u.phases 2 ≡ holding (record { block = 11; time = 6000 }))
overtaken_example =
    overtaken lockable lockable-IsBlockAndTime env 1 2 (record { block = 7; time = 1000 }) late
      (λ e. absurd (omega (arith, e))) late_holds.0 late_holds.1 (omega arith) (omega arith)

-- The second run has not looked again: once the first is done it gets the lock and asks as well.
asked_twice : (fetch env 2 (try_lock lockable 2 (fetch env 1 first_locks))).local.requests ≡ 2
unfolding look try_lock fetch fetch_n_parse fetch_from_remote
asked_twice = refl
