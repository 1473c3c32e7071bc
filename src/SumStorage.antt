-- ===== src/SumStorage.antt =====
-- Two numbers and their sum (pallets/sum-storage/src/lib.rs), the runtime API for the sum
-- (runtimes/api-runtime/src/lib.rs) and the RPC method over it (pallets/sum-storage/rpc/src/lib.rs).
pub mod Query
mod Tests
use Prim.Native.String.{String}
use substrate_recipes.Prelude.{
  ℕ, Bool, Option, none, some, List, [], ◌∷◌, ◌++◌, ◌⊎◌, inl, inr, unwrap_or,
}
use substrate_recipes.Prelude.Words.{plain_add}
use substrate_recipes.Frame.{Frame, Call, signed, modify, ◌>>=◌, ◌>>◌}

pub data Event : Type 0 where
  value_set : ℕ → ℕ → Event

-- `Thing1`, `Thing2`, and the events deposited so far.
pub record State : Type 0 where
  pub thing1 : ℕ
  pub thing2 : ℕ
  pub events : List Event

abbrev deposit_event : Event → State → State
deposit_event e s = record s { events = s.events ++ (e ∷ []) }

module _ {Origin : Type 0} (frame : Frame Origin) where
  pub set_thing_1 : Origin → ℕ → Call State ⊥ (Unit {0})
  set_thing_1 origin val = do
    who ← signed frame origin
    modify λ s. record s { thing1 = val }
    modify (deposit_event (value_set 1 val))

  pub set_thing_2 : Origin → ℕ → Call State ⊥ (Unit {0})
  set_thing_2 origin val = do
    who ← signed frame origin
    modify λ s. record s { thing2 = val }
    modify (deposit_event (value_set 2 val))

-- `none` is the panic of a build that checks overflow.
pub get_sum : Bool → State → Option ℕ
get_sum overflow_checks s = plain_add 32 overflow_checks s.thing1 s.thing2

-- `RpcError`: a server error with a code, its message, and the data that show the cause.
pub record RpcError (E : Type 0) : Type 0 where
  pub server_error : ℕ
  pub message : String
  pub data' : E

-- What the client gives: the hash of the best block, the state at a block if it is known, what the
-- runtime API says of a block that is not known, and of a runtime that panics.
pub record Client (E : Type 0) : Type 0 where
  pub best_hash : ℕ
  pub state_at : ℕ → Option State
  pub unknown_block : ℕ → E
  pub panicked : E

module _ {E : Type 0} (overflow_checks : Bool) (client : Client E) where
  abbrev answer : Option ℕ → E ⊎ ℕ
  answer none = inl client.panicked
  answer (some sum) = inr sum

  -- `SumStorageApi::get_sum` of the runtime, called at a block.
  pub api_get_sum : ℕ → E ⊎ ℕ
  unfolding get_sum
  api_get_sum at = elim (client.state_at at) [
    | none ↦ inl (client.unknown_block at)
    | some s ↦ answer (get_sum overflow_checks s)
  ]

  abbrev map_err : E ⊎ ℕ → RpcError E ⊎ ℕ
  map_err (inl e) = inl (record { server_error = 9876; message = "Something wrong"; data' = e })
  map_err (inr sum) = inr sum

  pub rpc_get_sum : Option ℕ → RpcError E ⊎ ℕ
  unfolding api_get_sum
  rpc_get_sum at = map_err (api_get_sum (unwrap_or at client.best_hash))
