-- ===== src/Ring/Pallet.antt =====
-- The pallet over the ring (pallets/ringbuffer-queue/src/lib.rs): its storage, its events and its
-- calls. An `i32` is its bit pattern, since it is only moved.
pub mod Spec
use substrate_recipes.Prelude.{
  ℕ, Bool, true, false, Option, none, some, List, [], ◌∷◌, ◌++◌, map, if◌then◌else◌,
}
use substrate_recipes.Frame.{
  Frame, Outcome, Call, ok, err, panic, signed, modify, ◌>>=◌, ◌>>◌, pure, ok_or, bad_origin, fail,
}
use substrate_recipes.Ring.{Transient, Backing, new, commit, push, pop}

pub record ValueStruct : Type 0 where
  pub integer : ℕ
  pub boolean : Bool

-- `#[derive(Default)]`
abbrev pub default : ValueStruct
default = record { integer = 0; boolean = false }

pub data Event : Type 0 where
  popped : ℕ → Bool → Event
  dummy_event : ℕ → Event

-- `BufferRange` and `BufferMap`, and the events deposited so far.
pub record State : Type 0 where
  pub ring : Backing ValueStruct
  pub events : List Event

-- `BufferIndex` is `u8`.
abbrev pub index_bits : ℕ
index_bits = 8

abbrev deposit_event : Event → State → State
deposit_event e s = record s { events = s.events ++ (e ∷ []) }

-- `queue_transient`
abbrev queue_transient : State → Transient
queue_transient s = new s.ring

push_each : List ValueStruct → Transient → Backing ValueStruct → Transient × Backing ValueStruct
push_each [] t b = (t, b)
push_each (v ∷ vs) t b = let (t', b') = push index_bits default v t b in push_each vs t' b'

-- Where the handle on the queue goes out of scope, `drop` commits the bounds.
abbrev dropped : Transient × Backing ValueStruct → Backing ValueStruct
dropped (t, b) = commit t b

-- The event of a call of `pop_from_queue`, by what `pop` returned.
abbrev report : Option ValueStruct → State → State
report none s = s
report (some v) s = deposit_event (popped v.integer v.boolean) s

module _ {Origin : Type 0} (frame : Frame Origin) where
  pub add_to_queue : Origin → ℕ → Bool → Call State ⊥ (Unit {0})
  add_to_queue origin integer boolean = do
    signed frame origin
    modify λ s.
        let v : ValueStruct = record { integer = integer; boolean = boolean } in
        record s { ring = dropped (push index_bits default v (queue_transient s) s.ring) }

  pub add_multiple : Origin → List ℕ → Bool → Call State ⊥ (Unit {0})
  unfolding push_each
  add_multiple origin integers boolean = do
    signed frame origin
    modify λ s.
        let vs : List ValueStruct =
          map (λ integer. record { integer = integer; boolean = boolean }) integers in
        record s { ring = dropped (push_each vs (queue_transient s) s.ring) }

  pub pop_from_queue : Origin → Call State ⊥ (Unit {0})
  pop_from_queue origin = do
    signed frame origin
    modify λ s.
        let (item, t, b) = pop index_bits default (queue_transient s) s.ring in
        report item (record s { ring = dropped (t, b) })
