-- ===== src/SuperRuntime/Tests.antt =====
-- The runtime in a small setting: two members, and one who joins.
use substrate_recipes.Prelude.{
  ℕ, ◌+◌, ◌-◌, ◌*◌, ◌/◌, ◌<◌, ◌≡◌, refl, false, some, none, [], ◌∷◌, arith, length, ltb, ◌==◌, ◌^◌,
  if◌then◌else◌,
}
use substrate_recipes.Frame.{ok}
use substrate_recipes.Mock.{Origin, mock_frame}
use substrate_recipes.Mock.Reserve.{Reserves, reserves}
use substrate_recipes.Mock.Members.{vec_members, map_members, both-Agree}
use substrate_recipes.Frame.Currency.{Currency, done, failed}
use substrate_recipes.Crowdfund
use substrate_recipes.Crowdfund.Sound.{IsSound}
use substrate_recipes.Crowdfund.Unfunded.{IsReaping, unfunded-create}
use substrate_recipes.CompoundingInterest
use substrate_recipes.ConstantConfig
use substrate_recipes.Ring.{new}
use substrate_recipes.Callers.LastCaller
use substrate_recipes.Callers.DefaultInstance
use substrate_recipes.Callers.Emitters
use substrate_recipes.CheckMembership.{check_membership_loose, check_membership_tight}
use substrate_recipes.CheckMembership.Agree
use substrate_recipes.CheckMembership.Outcomes.{verdict}
use substrate_recipes.SuperRuntime
use substrate_recipes.SuperRuntime.{
  Env, State, existential_deposit, crowdfund_config, dispatch, finalize, loose_of, tight_of, lift,
  and_then,
}
use substrate_recipes.SuperRuntime.Calls
use substrate_recipes.SuperRuntime.Valid.{IsValid}
use substrate_recipes.SuperRuntime.Begin.{storage, begin, begun-verdict}
use substrate_recipes.Genesis.{GenesisConfig}
use substrate_recipes.Genesis.Build.{Balances, build_storage}
use substrate_recipes.Crowdfund.ChildTrie.{put}
use substrate_recipes.Charity
use substrate_recipes.VecSet
use substrate_recipes.SortedVec.{binary_search, insert_at}
use substrate_recipes.SuperRuntime.Membership.{Reach, here, next, calls, ends, joined_passes}

abbrev whole : CompoundingInterest.Arithmetic ℕ
whole = record {
  percent_mul = λ rate x. x * rate / 100;
  from_num = λ x. some x;
  fixed_add = λ x y. some (x + y);
  fixed_sub = λ x y. some (x - y);
  fixed_mul = λ x y. some (x * y);
  fixed_div = λ x d. some x;
  exp = λ x. some (x + 1);
}

abbrev env : Env Origin Reserves ℕ
env = record {
  overflow_checks = false;
  frame = mock_frame;
  balances = reserves;
  charity_account = 900;
  into_sub_account = λ i. i + 1000;
  child_info = λ bytes. length bytes;
  interest = whole;
  fixed_point = record { permill_saturating_mul = λ x y. x; fixed_checked_mul = λ x y. some x };
  randomness = record {
    encode = λ n. n ∷ [];
    random_seed = λ now. now;
    random = λ now subject. now + length subject;
  };
}

-- The storage before the first call, but for two members.
abbrev genesis : State Reserves ℕ
genesis = record (storage env 0 (record { bank = ([], []); events = [] })) {
  map_set = map_members;
  vec_set = vec_members;
}

genesis-IsValid : IsValid genesis
unfolding new
genesis-IsValid = record {
  vec_valid = both-Agree.vec_valid;
  map_valid = both-Agree.map_valid;
  ring_valid = record { start_in = omega arith; end_in = omega arith };
}

-- Five calls by the account 6, and the end of the block.
abbrev caller_calls : State Reserves ℕ
caller_calls = record genesis {
  last_caller = record { caller = 6; events = LastCaller.called 6 ∷ [] };
  default_instance = record { caller = 6; events = DefaultInstance.called 6 ∷ [] };
  simple_events = Emitters.simple_input 11 ∷ [];
  generic_events = Emitters.generic_input 6 12 ∷ [];
}

five_calls : Reach env genesis caller_calls
unfolding dispatch finalize lift and_then LastCaller.call DefaultInstance.call Emitters.say_hello
    Emitters.do_something_simple Emitters.do_something_generic CompoundingInterest.on_finalize
    ConstantConfig.on_finalize
five_calls =
    next
      (next
        (next
          (next
            (next (next here (calls 4 (some 6) SuperRuntime.last_caller refl))
              (calls 4 (some 6) SuperRuntime.default_instance refl))
            (calls 4 (some 6) SuperRuntime.hello_substrate refl))
          (calls 4 (some 6) (SuperRuntime.simple_event 11) refl))
        (calls 4 (some 6) (SuperRuntime.generic_event 12) refl))
      (ends 4 refl)

-- Account 1 begins with 100, and 6 joins.
abbrev balances : Balances Reserves
balances = record {
  build_balances = λ bs. some (bs, []);
  make_free_balance_be = λ k x b. (put k x b.0, b.1);
}

abbrev config : GenesisConfig
config = record { system = []; pallet_balances = (1, 100) ∷ []; pallet_sudo = 1; charity = tt }

abbrev begun : State Reserves ℕ
begun = storage env 0 (record { bank = ((1, 100) ∷ (900, 1) ∷ [], []); events = [] })

abbrev six_joined : State Reserves ℕ
six_joined = record begun {
  vec_set = record { members = 6 ∷ []; events = VecSet.member_added 6 ∷ [] };
}

six_joins : Reach env begun six_joined
unfolding dispatch lift VecSet.add_member binary_search insert_at
six_joins = next here (calls 4 (some 6) (SuperRuntime.vec_set Calls.add_member) refl)

begins : begin env balances 0 config ≡ some begun
unfolding begin build_storage Charity.build
begins = refl

begun-verdict_example :
    IsValid six_joined
    × ((check_membership_tight mock_frame (some 6) (tight_of env six_joined)).0
        ≡ verdict (some 6) six_joined.vec_set)
    × ((check_membership_loose mock_frame Agree.vec_accounts (some 6) (loose_of env six_joined)).0
        ≡ verdict (some 6) six_joined.vec_set)
begun-verdict_example = begun-verdict env balances 0 config begins six_joins (some 6)

joined_passes_example :
    (u : State Reserves ℕ) × (dispatch env 5
        (some 5)
        (SuperRuntime.vec_set Calls.add_member)
        caller_calls
      ≡ some u)
    × ((check_membership_tight mock_frame (some 5) (tight_of env u)).0 ≡ ok tt)
    × ((check_membership_loose mock_frame Agree.vec_accounts (some 5) (loose_of env u)).0 ≡ ok tt)
joined_passes_example = joined_passes env five_calls genesis-IsValid 5 (some 5) 5 refl (omega arith)

-- A currency whose accounts need 500.
abbrev set_balance : ℕ → ℕ → (ℕ → ℕ) → ℕ → ℕ
set_balance a x b j = if j == a then x else b j

abbrev strict : Currency (ℕ → ℕ)
strict = record {
  balance_limit = 2 ^ 128;
  minimum_balance = existential_deposit;
  total_issuance = λ b. 0;
  free_balance = λ a b. b a;
  transfer = λ a z x b. failed 0;
  withdraw = λ a x b. if ltb (b a) x then failed 0 else done (x, set_balance a (b a - x) b);
  resolve_creating =
      λ a x b. if ltb (b a + x) existential_deposit then b else set_balance a (b a + x) b;
  resolve_into_existing = λ a x b. b;
}

resolve_short :
    (a x : ℕ) (b : ℕ → ℕ) → b a ≡ 0 → x < existential_deposit → strict.resolve_creating a x b a ≡ 0
resolve_short a x b empty short = ground arith

strict-IsReaping : IsReaping strict
strict-IsReaping = record { resolve_creating_short = resolve_short }

abbrev rich : ℕ → ℕ
rich = set_balance 7 1000 (λ j. 0)

abbrev no_funds : Crowdfund.State (ℕ → ℕ)
no_funds = record { funds = λ i. none; fund_count = 0; tries = λ i. []; bank = rich; events = [] }

unfunded-create_example :
    let (r, s') =
      Crowdfund.create (crowdfund_config env) mock_frame strict 1 (some 7) 8 900 50 no_funds in
    let fund : Crowdfund.FundInfo = record {
      beneficiary = 8;
      deposit = 10;
      raised = 0;
      end = 50;
      goal = 900;
    } in
    (r ≡ ok tt)
    × (s'.funds 0 ≡ some fund)
    × (s'.bank (Crowdfund.fund_account_id (crowdfund_config env) 0) ≡ 0)
    × ((IsSound (crowdfund_config env) strict s') → ⊥)
unfolding Crowdfund.fund_account_id
unfunded-create_example =
    unfunded-create strict-IsReaping mock_frame 1 (some 7) 7 8 900 50 no_funds
      (set_balance 7 990 rich) (omega arith) (omega arith) refl (omega arith) (omega arith) refl
      refl
