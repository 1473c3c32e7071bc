-- ===== src/SuperRuntime/Calls.antt =====
-- The calls of each pallet as values, as `construct_runtime!` generates them, and the call that each
-- value stands for. The width of a balance is 128 bits and that of a block number 32.
use substrate_recipes.Prelude.{ℕ, Bool, List}
use substrate_recipes.Frame.{Frame, Call}
use substrate_recipes.Frame.Currency.{Currency}
use substrate_recipes.Frame.Reservable.{Reservable}
use substrate_recipes.BasicToken
use substrate_recipes.Charity
use substrate_recipes.CompoundingInterest
use substrate_recipes.ConstantConfig
use substrate_recipes.Crowdfund
use substrate_recipes.DoubleMap
use substrate_recipes.FixedPoint
use substrate_recipes.ReservableCurrency
use substrate_recipes.SimpleMap
use substrate_recipes.StorageCache
use substrate_recipes.StructStorage
use substrate_recipes.VecSet
use substrate_recipes.MapSet
use substrate_recipes.Ring.Pallet

pub data BasicTokenCall : Type 0 where
  init : BasicTokenCall
  transfer : ℕ → ℕ → BasicTokenCall

pub data CharityCall : Type 0 where
  donate : ℕ → CharityCall
  allocate : ℕ → ℕ → CharityCall

pub data CompoundingInterestCall : Type 0 where
  deposit_continuous withdraw_continuous : ℕ → CompoundingInterestCall
  deposit_discrete withdraw_discrete : ℕ → CompoundingInterestCall

pub data ConstantConfigCall : Type 0 where
  add_value set_value : ℕ → ConstantConfigCall

pub data CrowdfundCall : Type 0 where
  create : ℕ → ℕ → ℕ → CrowdfundCall
  contribute : ℕ → ℕ → CrowdfundCall
  withdraw dissolve dispense : ℕ → CrowdfundCall

pub data DoubleMapCall : Type 0 where
  join_all_members remove_member : DoubleMapCall
  join_a_group : ℕ → ℕ → DoubleMapCall
  remove_group_score : ℕ → DoubleMapCall

pub data FixedPointCall : Type 0 where
  update_permill update_fixed update_manual : ℕ → FixedPointCall

pub data ReservableCurrencyCall : Type 0 where
  reserve_funds unreserve_funds : ℕ → ReservableCurrencyCall
  transfer_funds : ℕ → ℕ → ReservableCurrencyCall
  unreserve_and_transfer : ℕ → ℕ → ℕ → ReservableCurrencyCall

pub data SimpleMapCall : Type 0 where
  set_single_entry get_single_entry increase_single_entry : ℕ → SimpleMapCall
  take_single_entry : SimpleMapCall

pub data StorageCacheCall : Type 0 where
  increase_value_no_cache increase_value_w_copy set_copy : ℕ → StorageCacheCall
  swap_king_no_cache swap_king_with_cache set_king mock_add_member : StorageCacheCall

pub data StructStorageCall : Type 0 where
  insert_inner_thing : ℕ → ℕ → ℕ → StructStorageCall
  insert_super_thing_with_existing_inner : ℕ → ℕ → StructStorageCall
  insert_super_thing_with_new_inner : ℕ → ℕ → ℕ → ℕ → StructStorageCall

-- The calls of the vector set, and those of the map set.
pub data MembersCall : Type 0 where
  add_member remove_member : MembersCall

pub data RingbufferQueueCall : Type 0 where
  add_to_queue : ℕ → Bool → RingbufferQueueCall
  add_multiple : List ℕ → Bool → RingbufferQueueCall
  pop_from_queue : RingbufferQueueCall

module _ {Origin : Type 0} (overflow_checks : Bool) (frame : Frame Origin) (now : ℕ)
    (o : Origin) where
  abbrev pub basic_token_call : BasicTokenCall → Call BasicToken.State BasicToken.Error (Unit {0})
  basic_token_call init = BasicToken.init frame o
  basic_token_call (transfer to value) = BasicToken.transfer frame o to value

  abbrev pub compounding_interest_call :
      {Fixed : Type 0}
      → CompoundingInterest.Arithmetic Fixed
      → CompoundingInterestCall
      → Call (CompoundingInterest.State Fixed) ⊥ (Unit {0})
  compounding_interest_call a (deposit_continuous x) =
      CompoundingInterest.deposit_continuous overflow_checks a frame 32 now o x
  compounding_interest_call a (withdraw_continuous x) =
      CompoundingInterest.withdraw_continuous overflow_checks a frame 32 now o x
  compounding_interest_call a (deposit_discrete x) =
      CompoundingInterest.deposit_discrete overflow_checks frame o x
  compounding_interest_call a (withdraw_discrete x) =
      CompoundingInterest.withdraw_discrete overflow_checks frame o x

  abbrev pub constant_config_call :
      ConstantConfig.Config → ConstantConfigCall → Call ConstantConfig.State ⊥ (Unit {0})
  constant_config_call config (add_value x) = ConstantConfig.add_value config frame o x
  constant_config_call config (set_value x) = ConstantConfig.set_value frame o x

  abbrev pub double_map_call : DoubleMapCall → Call DoubleMap.State ⊥ (Unit {0})
  double_map_call join_all_members = DoubleMap.join_all_members frame o
  double_map_call remove_member = DoubleMap.remove_member frame o
  double_map_call (join_a_group id score) = DoubleMap.join_a_group frame o id score
  double_map_call (remove_group_score id) = DoubleMap.remove_group_score frame o id

  abbrev pub fixed_point_call :
      FixedPoint.Arithmetic → FixedPointCall → Call FixedPoint.State FixedPoint.Error (Unit {0})
  fixed_point_call a (update_permill x) = FixedPoint.update_permill frame a o x
  fixed_point_call a (update_fixed x) = FixedPoint.update_fixed frame a o x
  fixed_point_call a (update_manual x) = FixedPoint.update_manual frame overflow_checks o x

  abbrev pub simple_map_call : SimpleMapCall → Call SimpleMap.State SimpleMap.Error (Unit {0})
  simple_map_call (set_single_entry x) = SimpleMap.set_single_entry frame o x
  simple_map_call (get_single_entry x) = SimpleMap.get_single_entry frame o x
  simple_map_call (increase_single_entry x) = SimpleMap.increase_single_entry frame o x
  simple_map_call take_single_entry = SimpleMap.take_single_entry frame o

  abbrev pub storage_cache_call : StorageCacheCall → Call StorageCache.State ⊥ (Unit {0})
  storage_cache_call (increase_value_no_cache x) =
      StorageCache.increase_value_no_cache frame now o x
  storage_cache_call (increase_value_w_copy x) = StorageCache.increase_value_w_copy frame now o x
  storage_cache_call (set_copy x) = StorageCache.set_copy frame o x
  storage_cache_call swap_king_no_cache = StorageCache.swap_king_no_cache frame o
  storage_cache_call swap_king_with_cache = StorageCache.swap_king_with_cache frame o
  storage_cache_call set_king = StorageCache.set_king frame o
  storage_cache_call mock_add_member = StorageCache.mock_add_member frame o

  abbrev pub struct_storage_call : StructStorageCall → Call StructStorage.State ⊥ (Unit {0})
  struct_storage_call (insert_inner_thing number hash balance) =
      StructStorage.insert_inner_thing frame o number hash balance
  struct_storage_call (insert_super_thing_with_existing_inner inner super) =
      StructStorage.insert_super_thing_with_existing_inner frame o inner super
  struct_storage_call (insert_super_thing_with_new_inner number hash balance super) =
      StructStorage.insert_super_thing_with_new_inner frame o number hash balance super

  abbrev pub vec_set_call : MembersCall → Call VecSet.State VecSet.Error (Unit {0})
  vec_set_call add_member = VecSet.add_member frame o
  vec_set_call remove_member = VecSet.remove_member frame o

  abbrev pub map_set_call : MembersCall → Call MapSet.State MapSet.Error (Unit {0})
  map_set_call add_member = MapSet.add_member overflow_checks frame o
  map_set_call remove_member = MapSet.remove_member overflow_checks frame o

  abbrev pub ringbuffer_queue_call : RingbufferQueueCall → Call Pallet.State ⊥ (Unit {0})
  ringbuffer_queue_call (add_to_queue i b) = Pallet.add_to_queue frame o i b
  ringbuffer_queue_call (add_multiple is b) = Pallet.add_multiple frame o is b
  ringbuffer_queue_call pop_from_queue = Pallet.pop_from_queue frame o

  module _ {Bank : Type 0} where
    abbrev pub charity_call :
        ℕ → Currency Bank → CharityCall → Call (Charity.State Bank) ⊥ (Unit {0})
    charity_call account c (donate x) = Charity.donate account c frame o x
    charity_call account c (allocate dest x) = Charity.allocate account c frame o dest x

    abbrev pub crowdfund_call :
        Crowdfund.Config
        → Currency Bank
        → CrowdfundCall
        → Call (Crowdfund.State Bank) Crowdfund.Error (Unit {0})
    crowdfund_call config c (create beneficiary goal end) =
        Crowdfund.create config frame c now o beneficiary goal end
    crowdfund_call config c (contribute index value) =
        Crowdfund.contribute config frame c now o index value
    crowdfund_call config c (withdraw index) = Crowdfund.withdraw config frame c now o index
    crowdfund_call config c (dissolve index) = Crowdfund.dissolve config frame c now o index
    crowdfund_call config c (dispense index) = Crowdfund.dispense config frame c now o index

    abbrev pub reservable_currency_call :
        Reservable Bank → ReservableCurrencyCall → Call (ReservableCurrency.State Bank) ⊥ (Unit {0})
    reservable_currency_call c (reserve_funds x) = ReservableCurrency.reserve_funds frame c now o x
    reservable_currency_call c (unreserve_funds x) =
        ReservableCurrency.unreserve_funds frame c now o x
    reservable_currency_call c (transfer_funds dest x) =
        ReservableCurrency.transfer_funds frame c now o dest x
    reservable_currency_call c (unreserve_and_transfer to_punish dest x) =
        ReservableCurrency.unreserve_and_transfer frame c 128 overflow_checks now o to_punish dest x
