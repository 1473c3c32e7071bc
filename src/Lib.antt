-- ===== src/Lib.antt =====
-- A model of the pallets of the Substrate recipes, and what makes them correct.
--
-- A pallet keeps state in the runtime's storage, and its calls change it. Each pallet is one module
-- here: its storage is a record `State`, its errors and events are data types with the variants of
-- the source, and each call is one function with the name that it has in the source. A call runs in
-- the monad `Call` of Frame.antt: it takes the state and gives an outcome (ok, an error, or a panic)
-- and the state after it. What was written before an error stays written, since the pallets do not
-- roll back; events are appended to the list `events` of the state.
--
-- Which file models which part (paths from the root of the repository):
--   Frame.antt            the monad of calls, the origin checks and the storage maps; the checks
--                         themselves are `frame_system`'s: the parameter `Frame`
--   Frame/Currency.antt   the `Currency` trait of `frame_support`, a parameter: its operations and
--                         laws that state what its documentation promises
--   Crowdfund.antt        pallets/simple-crowdfund/src/lib.rs; Crowdfund/ChildTrie.antt has the
--                         contributions of a fund, Crowdfund/Sound.antt the invariant, and the
--                         other files of Crowdfund/ a call each
--   Ring.antt             pallets/ringbuffer-queue/src/ringbuffer.rs, with the abstract queue in
--                         Ring/Queue.antt; Ring/Pallet.antt is src/lib.rs of the same pallet
--   SortedVec.antt        what the pallets use of `Vec` and `BTreeSet` of the standard library
--   VecSet.antt           pallets/vec-set/src/lib.rs
--   MapSet.antt           pallets/map-set/src/lib.rs
--   CheckMembership.antt  pallets/check-membership/src, and traits/account-set/src/lib.rs, the
--                         interface through which the loose check asks either set
--   BasicToken.antt       pallets/basic-token/src/lib.rs
--   StorageCache.antt     pallets/storage-cache/src/lib.rs
--   SimpleMap.antt        pallets/simple-map/src/lib.rs
--   DoubleMap.antt        pallets/double-map/src/lib.rs
--   ConstantConfig.antt   pallets/constant-config/src/lib.rs
--   FixedPoint.antt       pallets/fixed-point/src/lib.rs
--   Weights.antt          pallets/weights/src/lib.rs
--   Charity.antt          pallets/charity/src/lib.rs
--   ReservableCurrency.antt   pallets/reservable-currency/src/lib.rs, over the parameter of
--                         Frame/Reservable.antt, the `ReservableCurrency` trait
--   CompoundingInterest.antt  pallets/compounding-interest/src/lib.rs
--   StructStorage.antt    pallets/struct-storage/src/lib.rs
--   OcwDemo.antt          pallets/ocw-demo/src/lib.rs on chain; OcwDemo/Worker.antt is the worker of
--                         the same file, with the node around it as the parameter `Env`; its lock,
--                         between runs at once, with the block and the time at which it expires, is
--                         in OcwDemo/Worker/Race.antt, and the worker with the chain in
--                         OcwDemo/Chain.antt
--   Sha3Pow.antt          consensus/sha3pow/src/lib.rs
--   PowMiner.antt         the mining loop of nodes/basic-pow/src/service.rs and
--                         nodes/hybrid-consensus/src/service.rs, round by round
--   Randomness.antt       pallets/randomness/src/lib.rs; the source of randomness is a parameter that
--                         changes from block to block
--   SumStorage.antt       pallets/sum-storage/src/lib.rs, the RPC method of its rpc/src/lib.rs, and the
--                         API between them in runtimes/api-runtime/src/lib.rs
--   LockableCurrency.antt     pallets/lockable-currency/src/lib.rs
--   CurrencyImbalances.antt   pallets/currency-imbalances/src/lib.rs
--   Callers/              pallets/last-caller, pallets/default-instance, pallets/simple-event,
--                         pallets/generic-event and pallets/hello-substrate, a call each
--   SuperRuntime.antt     runtimes/super-runtime/src/lib.rs: the state of all these pallets side by
--                         side, the calls that reach each (SuperRuntime/Calls.antt), the hooks at
--                         the end of a block, and the storage at the beginning
--                         (SuperRuntime/Begin.antt); ocw-demo, sum-storage, lockable-currency and
--                         currency-imbalances are not part of it
--   Genesis.antt          runtimes/super-runtime/src/genesis.rs, and how a node finds a chain by a name,
--                         in nodes/kitchen-node/src/chain_spec.rs and src/command.rs of that node;
--                         Genesis/Grandpa.antt is the same of runtimes/minimal-grandpa-runtime and
--                         nodes/hybrid-consensus, and Genesis/Build.antt begins the chain
--   OcwRuntime.antt       runtimes/ocw-runtime/src/lib.rs: how it signs a transaction for a worker;
--                         payloads, eras and signatures are `sp_runtime`'s, a parameter
--   WeightFee.antt        the fee polynomials of runtimes/weight-fee-runtime/src/lib.rs
--   Mock.antt             a small runtime in which the examples run
-- The files named Tests hold runs at fixed inputs and examples of the theorems.
--
-- Numbers are naturals. An integer of the source keeps its width: Prelude/Words.antt has the
-- wrapping, checked and saturating operations, and the plain operators, which panic or wrap by
-- whether the build checks overflow; where a pallet uses those, the choice is a parameter.
-- Accounts and hashes are numbers, of which only equality is used. A storage map is the function
-- that it holds. The binary search is a recursion on fuel of the vector's length, which is enough
-- since each round at least halves the range; the other loops are structural.
--
-- The soundness of the crowdfund rests on what Crowdfund/Runtime.antt lists: the laws of the
-- currency, that sub-accounts and hashes of different funds differ, that the deposit keeps a pot
-- alive, and that nothing locks a pot. The constants of the super-runtime do not meet the third:
-- SubmissionDeposit is 10 and ExistentialDeposit 500 there, so what rests on it holds in a runtime
-- with a deposit of at least the minimum balance, such as that of Crowdfund/Tests.antt. Calls come
-- from origins that do not own a pot, since a pot has no key.
--
-- A chain begins with what the balances pallet makes of the genesis configuration, which is a parameter
-- with its documented behaviour, as are the keys of seeds and their accounts.
--
-- A panic ends a block: in the runtime it gives no state. The worker of a block runs after it and
-- can only submit transactions; several runs in a row stand for the blocks of a chain. The miner's
-- loop never ends by itself: a sequence of rounds, each with the work at hand or none, stands for a
-- stretch of it, and the rounds that a search can need are counted against a good nonce. Runs of the
-- worker at once are steps of a relation, with time passing between them; a fetch is one step that
-- may come any time after the lock was taken.
--
-- Not modelled: the wiring of network, database and consensus services in the nodes (nodes/), and what
-- the runtimes (runtimes/) configure of other crates; the weights that annotate calls; the evaluation
-- of a fee polynomial, which is `frame_support`'s; and the debug formats.
pub mod Prelude
pub mod Frame
pub mod Ring
pub mod Crowdfund
pub mod SortedVec
pub mod VecSet
pub mod MapSet
pub mod CheckMembership
pub mod BasicToken
pub mod StorageCache
pub mod SimpleMap
pub mod DoubleMap
pub mod ConstantConfig
pub mod FixedPoint
pub mod Weights
pub mod OcwDemo
pub mod Sha3Pow
pub mod WeightFee
pub mod SuperRuntime
pub mod CurrencyImbalances
pub mod Callers
pub mod LockableCurrency
pub mod SumStorage
pub mod Randomness
pub mod PowMiner
pub mod Charity
pub mod StructStorage
pub mod CompoundingInterest
pub mod ReservableCurrency
pub mod Mock
pub mod Genesis
pub mod OcwRuntime
