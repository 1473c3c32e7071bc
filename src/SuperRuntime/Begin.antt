-- ===== src/SuperRuntime/Begin.antt =====
-- The runtime from the beginning of its chain: the storage of every pallet before the first call, with
-- the balances and the charity that the genesis configuration makes.
use mathlib.Core.Option
use substrate_recipes.Prelude.{◌≡◌, refl, subst, false, Option, none, some, [], arith}
use substrate_recipes.SuperRuntime.{Env, State, loose_of, tight_of}
use substrate_recipes.SuperRuntime.Valid.{IsValid}
use substrate_recipes.SuperRuntime.Membership.{Reach, Reach-verdict}
use substrate_recipes.CheckMembership.{check_membership_loose, check_membership_tight}
use substrate_recipes.CheckMembership.Agree
use substrate_recipes.CheckMembership.Outcomes.{verdict}
use substrate_recipes.BasicToken.{default_supply}
use substrate_recipes.FixedPoint.{manual_default}
use substrate_recipes.Ring.{new}
use substrate_recipes.Charity
use substrate_recipes.Genesis.{GenesisConfig}
use substrate_recipes.Genesis.Build.{Balances, Chain, build_storage}

module _ {Origin Bank Fixed : Type 0} (env : Env Origin Bank Fixed) where
  -- What the pallets read before anything is written: the defaults that they declare, or else the
  -- default of the type. `zero` is that of `I32F32`; one is 1000000 as a `Permill`, and 65536 as a
  -- `U16F16`.
  abbrev pub storage : Fixed → Charity.State Bank → State Bank Fixed
  storage zero s = record {
    basic_token = record {
      balances = λ i. none;
      total_supply = default_supply;
      is_init = false;
      events = [];
    };
    charity_events = s.events;
    loose_events = [];
    tight_events = [];
    compounding_interest = record {
      continuous_account = record { principal = zero; deposit_date = 0 };
      discrete_account = 0;
      events = [];
    };
    constant_config = record { single_value = 0; events = [] };
    default_instance = record { caller = 0; events = [] };
    double_map = record {
      member_score = λ i j. none;
      group_membership = λ i. none;
      all_members = [];
      events = [];
    };
    fixed_point = record {
      permill_value = 1000000;
      fixed_value = 65536;
      manual_value = manual_default;
      events = [];
    };
    generic_events = [];
    last_caller = record { caller = 0; events = [] };
    map_set = record { members = []; member_count = 0; events = [] };
    ringbuffer_queue = record { ring = record { bounds = (0, 0); items = λ i. none }; events = [] };
    randomness = record { nonce = 0; events = [] };
    reservable_events = [];
    crowdfund = record {
      funds = λ i. none;
      fund_count = 0;
      tries = λ i. [];
      bank = s.bank;
      events = [];
    };
    simple_map = record { simple_map = λ i. none; events = [] };
    storage_cache = record {
      some_copy_value = 0;
      king_member = 0;
      group_members = [];
      events = [];
    };
    struct_storage = record { inner_things = λ i. none; super_things = λ i. none; events = [] };
    vec_set = record { members = []; events = [] };
    simple_events = [];
  }

  -- The storage with which a chain begins, if the genesis configuration builds.
  unfoldable pub begin : Balances Bank → Fixed → GenesisConfig → Option (State Bank Fixed)
  begin p zero config =
      Option.map (λ (chain : Chain Bank). storage zero chain.charity)
        (build_storage env.charity_account env.balances.currency p config)

  storage-IsValid : (zero : Fixed) (s : Charity.State Bank) → IsValid (storage zero s)
  unfolding new
  storage-IsValid zero s = record {
    vec_valid = record { sorted = tt; bounded = omega arith };
    map_valid = record { keyed = tt; counted = refl; bounded = omega arith };
    ring_valid = record { start_in = omega arith; end_in = omega arith };
  }

  begin-IsValid :
      (p : Balances Bank) (zero : Fixed) (config : GenesisConfig) {s : State Bank Fixed}
      → begin p zero config ≡ some s
      → IsValid s
  unfolding begin
  begin-IsValid p zero config e =
      let (chain, _, same) = (Option.map-eq-some_iff _ _).0 e in
      subst IsValid same (storage-IsValid zero chain.charity)

  -- With the storage that any genesis configuration begins with, whatever calls of the runtime are made
  -- by whatever origins, with the ends of blocks between them: the states of the vector set, the map
  -- set and the ring buffer are valid, and the tight and the loose check both let exactly the members
  -- of the vector set through.
  pub begun-verdict :
      (p : Balances Bank) (zero : Fixed) (config : GenesisConfig) {s t : State Bank Fixed}
      → begin p zero config ≡ some s
      → Reach env s t
      → (o : Origin)
      → IsValid t
        × ((check_membership_tight env.frame o (tight_of env t)).0
            ≡ verdict (env.frame.ensure_signed o) t.vec_set)
        × ((check_membership_loose env.frame Agree.vec_accounts o (loose_of env t)).0
            ≡ verdict (env.frame.ensure_signed o) t.vec_set)
  begun-verdict p zero config e r o = Reach-verdict env r (begin-IsValid p zero config e) o
