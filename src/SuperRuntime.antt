-- ===== src/SuperRuntime.antt =====
-- The super-runtime (runtimes/super-runtime/src/lib.rs), as far as the pallets of the repository go:
-- their states side by side over one currency, the constants that configure them, the calls that reach
-- each of them, and what runs at the end of a block.
pub mod Calls
pub mod Parts
pub mod Valid
pub mod Membership
pub mod Begin
mod Tests
use substrate_recipes.Prelude.{ℕ, Bool, Option, none, some, List, [], ◌∷◌}
use substrate_recipes.Frame.{Frame, Outcome, Call, ok, err, panic}
use substrate_recipes.Frame.Reservable.{Reservable}
use substrate_recipes.BasicToken
use substrate_recipes.Charity
use substrate_recipes.CheckMembership
use substrate_recipes.CheckMembership.Agree
use substrate_recipes.CompoundingInterest
use substrate_recipes.ConstantConfig
use substrate_recipes.Crowdfund
use substrate_recipes.DoubleMap
use substrate_recipes.FixedPoint
use substrate_recipes.ReservableCurrency
use substrate_recipes.SimpleMap
use substrate_recipes.StorageCache
use substrate_recipes.StructStorage
use substrate_recipes.VecSet
use substrate_recipes.MapSet
use substrate_recipes.Ring.Pallet
use substrate_recipes.Randomness
use substrate_recipes.Callers.LastCaller
use substrate_recipes.Callers.DefaultInstance
use substrate_recipes.Callers.Emitters
use substrate_recipes.SuperRuntime.Calls

-- What the runtime takes from other crates: whether the build checks overflow, the origin checks, the
-- balances, the account of the charity, the accounts and tries of the crowdfund, the arithmetic of
-- three pallets, and the source of randomness.
pub record Env (Origin Bank Fixed : Type 0) : Type 0 where
  pub overflow_checks : Bool
  pub frame : Frame Origin
  pub balances : Reservable Bank
  pub charity_account : ℕ
  pub into_sub_account : ℕ → ℕ
  pub child_info : List ℕ → ℕ
  pub interest : CompoundingInterest.Arithmetic Fixed
  pub fixed_point : FixedPoint.Arithmetic
  pub randomness : Randomness.Config

-- The state of each pallet. The pallets that move balances share those of the `Balances` pallet, which
-- stand in the state of the crowdfund.
pub record State (Bank Fixed : Type 0) : Type 0 where
  pub basic_token : BasicToken.State
  pub charity_events : List Charity.Event
  pub loose_events : List CheckMembership.Event
  pub tight_events : List CheckMembership.Event
  pub compounding_interest : CompoundingInterest.State Fixed
  pub constant_config : ConstantConfig.State
  pub default_instance : DefaultInstance.State
  pub double_map : DoubleMap.State
  pub fixed_point : FixedPoint.State
  pub generic_events : List Emitters.GenericEvent
  pub last_caller : LastCaller.State
  pub map_set : MapSet.State
  pub ringbuffer_queue : Pallet.State
  pub randomness : Randomness.State
  pub reservable_events : List ReservableCurrency.Event
  pub crowdfund : Crowdfund.State Bank
  pub simple_map : SimpleMap.State
  pub storage_cache : StorageCache.State
  pub struct_storage : StructStorage.State
  pub vec_set : VecSet.State
  pub simple_events : List Emitters.SimpleEvent

-- `Call` of the runtime: a pallet, and one of its calls.
pub data RuntimeCall : Type 0 where
  basic_token : Calls.BasicTokenCall → RuntimeCall
  charity : Calls.CharityCall → RuntimeCall
  check_membership_loose check_membership_tight : RuntimeCall
  compounding_interest : Calls.CompoundingInterestCall → RuntimeCall
  constant_config : Calls.ConstantConfigCall → RuntimeCall
  default_instance last_caller hello_substrate : RuntimeCall
  double_map : Calls.DoubleMapCall → RuntimeCall
  fixed_point : Calls.FixedPointCall → RuntimeCall
  generic_event simple_event : ℕ → RuntimeCall
  map_set vec_set : Calls.MembersCall → RuntimeCall
  ringbuffer_queue : Calls.RingbufferQueueCall → RuntimeCall
  randomness : RuntimeCall
  reservable_currency : Calls.ReservableCurrencyCall → RuntimeCall
  crowdfund : Calls.CrowdfundCall → RuntimeCall
  simple_map : Calls.SimpleMapCall → RuntimeCall
  storage_cache : Calls.StorageCacheCall → RuntimeCall
  struct_storage : Calls.StructStorageCall → RuntimeCall

-- `MaxAddend` and `ClearFrequency`
abbrev pub constants : ConstantConfig.Config
constants = record { max_addend = 1738; clear_frequency = 10 }

-- `ExistentialDeposit`, the minimum balance of the `Balances` pallet.
abbrev pub existential_deposit : ℕ
existential_deposit = 500

module _ {S E A : Type 0} where
  -- A panic ends the block, and what the block wrote is gone.
  abbrev pub unless_panic : Outcome E A → S → Option S
  unless_panic (ok a) s = some s
  unless_panic (err e) s = some s
  unless_panic panic s = none

-- A call on a part of the state.
unfoldable pub lift : {S P E : Type 0} → (S → P) → (P → S → S) → Call P E (Unit {0}) → S → Option S
lift get set m s = let (r, p) = m (get s) in unless_panic r (set p s)

abbrev next_hook : {S : Type 0} → (S → Option S) → Option S → Option S
next_hook g none = none
next_hook g (some s) = g s

-- One hook after the other, up to a panic.
unfoldable pub and_then : {S : Type 0} → (S → Option S) → (S → Option S) → S → Option S
and_then f g s = next_hook g (f s)

module _ {Origin Bank Fixed : Type 0} (env : Env Origin Bank Fixed) where
  -- The configuration of the crowdfund, with `SubmissionDeposit`, `MinContribution` and
  -- `RetirementPeriod`.
  abbrev pub crowdfund_config : Crowdfund.Config
  crowdfund_config = record {
    submission_deposit = 10;
    min_contribution = 10;
    retirement_period = 10;
    balance_bits = 128;
    block_bits = 32;
    overflow_checks = env.overflow_checks;
    into_sub_account = env.into_sub_account;
    child_info = env.child_info;
  }

  abbrev set_bank : Bank → State Bank Fixed → State Bank Fixed
  set_bank b s = record s { crowdfund = record s.crowdfund { bank = b } }

  abbrev charity_of : State Bank Fixed → Charity.State Bank
  charity_of s = record { bank = s.crowdfund.bank; events = s.charity_events }

  abbrev set_charity : Charity.State Bank → State Bank Fixed → State Bank Fixed
  set_charity p s = record (set_bank p.bank s) { charity_events = p.events }

  abbrev reservable_of : State Bank Fixed → ReservableCurrency.State Bank
  reservable_of s = record { bank = s.crowdfund.bank; events = s.reservable_events }

  abbrev set_reservable : ReservableCurrency.State Bank → State Bank Fixed → State Bank Fixed
  set_reservable p s = record (set_bank p.bank s) { reservable_events = p.events }

  -- The source of the loose check is the vector set, and the tight one is tied to it.
  abbrev pub loose_of : State Bank Fixed → CheckMembership.State VecSet.State
  loose_of s = record { source = s.vec_set; events = s.loose_events }

  abbrev pub tight_of : State Bank Fixed → CheckMembership.State VecSet.State
  tight_of s = record { source = s.vec_set; events = s.tight_events }

  module _ (now : ℕ) (o : Origin) where
    -- What a call in a block does; none is a panic.
    pub dispatch : RuntimeCall → State Bank Fixed → Option (State Bank Fixed)
    dispatch (basic_token c) =
        lift (λ s. s.basic_token) (λ p s. record s { basic_token = p })
          (Calls.basic_token_call env.overflow_checks env.frame now o c)
    dispatch (charity c) = lift charity_of set_charity (
        Calls.charity_call env.overflow_checks env.frame now o env.charity_account
          env.balances.currency c)
    dispatch check_membership_loose =
        lift loose_of (λ p s. record s { vec_set = p.source; loose_events = p.events })
          (CheckMembership.check_membership_loose env.frame Agree.vec_accounts o)
    dispatch check_membership_tight =
        lift tight_of (λ p s. record s { vec_set = p.source; tight_events = p.events })
          (CheckMembership.check_membership_tight env.frame o)
    dispatch (compounding_interest c) =
        lift (λ s. s.compounding_interest) (λ p s. record s { compounding_interest = p })
          (Calls.compounding_interest_call env.overflow_checks env.frame now o env.interest c)
    dispatch (constant_config c) =
        lift (λ s. s.constant_config) (λ p s. record s { constant_config = p })
          (Calls.constant_config_call env.overflow_checks env.frame now o constants c)
    dispatch default_instance =
        lift (λ s. s.default_instance) (λ p s. record s { default_instance = p })
          (DefaultInstance.call env.frame o)
    dispatch last_caller =
        lift (λ s. s.last_caller) (λ p s. record s { last_caller = p })
          (LastCaller.call env.frame o)
    dispatch hello_substrate = lift (λ s. s) (λ p s. p) (Emitters.say_hello env.frame o)
    dispatch (double_map c) =
        lift (λ s. s.double_map) (λ p s. record s { double_map = p })
          (Calls.double_map_call env.overflow_checks env.frame now o c)
    dispatch (fixed_point c) =
        lift (λ s. s.fixed_point) (λ p s. record s { fixed_point = p })
          (Calls.fixed_point_call env.overflow_checks env.frame now o env.fixed_point c)
    dispatch (generic_event x) =
        lift (λ s. s.generic_events) (λ p s. record s { generic_events = p })
          (Emitters.do_something_generic env.frame o x)
    dispatch (simple_event x) =
        lift (λ s. s.simple_events) (λ p s. record s { simple_events = p })
          (Emitters.do_something_simple env.frame o x)
    dispatch (map_set c) =
        lift (λ s. s.map_set) (λ p s. record s { map_set = p })
          (Calls.map_set_call env.overflow_checks env.frame now o c)
    dispatch (vec_set c) =
        lift (λ s. s.vec_set) (λ p s. record s { vec_set = p })
          (Calls.vec_set_call env.overflow_checks env.frame now o c)
    dispatch (ringbuffer_queue c) =
        lift (λ s. s.ringbuffer_queue) (λ p s. record s { ringbuffer_queue = p })
          (Calls.ringbuffer_queue_call env.overflow_checks env.frame now o c)
    dispatch randomness =
        lift (λ s. s.randomness) (λ p s. record s { randomness = p })
          (Randomness.consume_randomness env.randomness env.frame now o)
    dispatch (reservable_currency c) =
        lift reservable_of set_reservable
          (Calls.reservable_currency_call env.overflow_checks env.frame now o env.balances c)
    dispatch (crowdfund c) =
        lift (λ s. s.crowdfund) (λ p s. record s { crowdfund = p })
          (Calls.crowdfund_call env.overflow_checks env.frame now o crowdfund_config
            env.balances.currency c)
    dispatch (simple_map c) =
        lift (λ s. s.simple_map) (λ p s. record s { simple_map = p })
          (Calls.simple_map_call env.overflow_checks env.frame now o c)
    dispatch (storage_cache c) =
        lift (λ s. s.storage_cache) (λ p s. record s { storage_cache = p })
          (Calls.storage_cache_call env.overflow_checks env.frame now o c)
    dispatch (struct_storage c) =
        lift (λ s. s.struct_storage) (λ p s. record s { struct_storage = p })
          (Calls.struct_storage_call env.overflow_checks env.frame now o c)

  -- The hooks of the two pallets that have one, at the end of a block. Their states are apart, so the
  -- order of the two does not show.
  pub finalize : ℕ → State Bank Fixed → Option (State Bank Fixed)
  finalize now =
      and_then
        (lift (λ s. s.compounding_interest) (λ p s. record s { compounding_interest = p })
          (CompoundingInterest.on_finalize env.overflow_checks env.interest now))
        (lift (λ s. s.constant_config) (λ p s. record s { constant_config = p })
          (ConstantConfig.on_finalize constants now))
