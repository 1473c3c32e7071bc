-- ===== src/Ring/Pallet/Spec.antt =====
-- The calls of the pallet against the queue that a user sees: for every sequence of calls the
-- stored ring holds the queue, and the events report the items, of the specification.
use substrate_recipes.Prelude.{
  ℕ, Bool, Option, none, some, List, [], ◌∷◌, ◌++◌, map, ◌≡◌, refl, arith, ◌∙◌, ap, ◌^◌, ◌-◌,
}
use substrate_recipes.Frame.{Frame}
use substrate_recipes.Ring.{Transient, Backing, new, commit, push}
use substrate_recipes.Ring.Queue
use substrate_recipes.Ring.Refine.{
  IsValid, contents, push-IsValid, contents-push, pop-IsValid, contents-pop,
}
use substrate_recipes.Ring.Pallet.{
  ValueStruct, default, Event, popped, State, index_bits, push_each, add_to_queue, add_multiple,
  pop_from_queue,
}

-- What a user sees: the queue, oldest item first, and the events.
pub record View : Type 0 where
  pub queue : List ValueStruct
  pub events : List Event

-- A ring of `u8` indices holds at most 255 items.
abbrev pub queue_limit : ℕ
queue_limit = 2 ^ index_bits - 1

-- A call by an origin.
pub data Op (Origin : Type 0) : Type 0 where
  add : Origin → ℕ → Bool → Op Origin
  add_many : Origin → List ℕ → Bool → Op Origin
  take : Origin → Op Origin

abbrev values : List ℕ → Bool → List ValueStruct
values integers boolean = map (λ i. record { integer = i; boolean = boolean }) integers

unfoldable pub enqueue_all : List ValueStruct → List ValueStruct → List ValueStruct
enqueue_all [] q = q
enqueue_all (v ∷ vs) q = enqueue_all vs (Queue.push queue_limit v q)

abbrev dequeued : Option ValueStruct × List ValueStruct → List Event → View
dequeued (none, q) es = record { queue = q; events = es }
dequeued (some v, q) es = record { queue = q; events = es ++ (popped v.integer v.boolean ∷ []) }

-- The view that a stored state gives, and the states that are well formed.
abbrev pub view : State → View
view s = record { queue = contents index_bits default (new s.ring) s.ring; events = s.events }

abbrev pub IsStored : State → Type 0
IsStored s = IsValid index_bits (new s.ring)

module _ {Origin : Type 0} (frame : Frame Origin) where
  -- The specification of a call: an origin that is not signed changes nothing.
  unfoldable pub spec_step : Op Origin → View → View
  unfolding enqueue_all
  spec_step (add origin i b) v = elim (frame.ensure_signed origin) [
    | none ↦ v
    | some who ↦ record v {
      queue = Queue.push queue_limit (record { integer = i; boolean = b }) v.queue;
    }
  ]
  spec_step (add_many origin is b) v = elim (frame.ensure_signed origin) [
    | none ↦ v
    | some who ↦ record v { queue = enqueue_all (values is b) v.queue }
  ]
  spec_step (take origin) v = elim (frame.ensure_signed origin) [
    | none ↦ v
    | some who ↦ dequeued (Queue.pop v.queue) v.events
  ]

  unfoldable pub step : Op Origin → State → State
  step (add origin i b) s = (add_to_queue frame origin i b s).1
  step (add_many origin is b) s = (add_multiple frame origin is b s).1
  step (take origin) s = (pop_from_queue frame origin s).1

  unfoldable pub run : List (Op Origin) → State → State
  unfolding step
  run [] s = s
  run (op ∷ ops) s = run ops (step op s)

  unfoldable pub spec_run : List (Op Origin) → View → View
  unfolding spec_step
  spec_run [] v = v
  spec_run (op ∷ ops) v = spec_run ops (spec_step op v)

-- Pushing a list of items, one after the other, into a ring.
push_each_lem :
    (vs : List ValueStruct) (t : Transient) (b : Backing ValueStruct)
    → IsValid index_bits t
    → let (t', b') = push_each vs t b in
      IsValid index_bits t'
      × (contents index_bits default t' b' ≡ enqueue_all vs (contents index_bits default t b))
unfolding push_each enqueue_all
push_each_lem [] t b v = (v, refl)
push_each_lem (x ∷ vs) t b v =
    let (t', b') = push index_bits default x t b in
    let (valid, same) = push_each_lem vs t' b' (push-IsValid index_bits default x t b v) in
    (valid, same ∙ ap (enqueue_all vs) (contents-push index_bits default x t b v))

module _ {Origin : Type 0} (frame : Frame Origin) where
  step_lem :
      (op : Op Origin) (s : State)
      → IsStored s
      → IsStored (step frame op s) × (view (step frame op s) ≡ spec_step frame op (view s))
  unfolding step spec_step add_to_queue add_multiple pop_from_queue new commit
  step_lem (add origin i b) s h =
      let v : ValueStruct = record { integer = i; boolean = b } in
      ground (
        arith,
        push-IsValid index_bits default v (new s.ring) s.ring h,
        contents-push index_bits default v (new s.ring) s.ring h,
      )
  step_lem (add_many origin is b) s h =
      ground (arith, push_each_lem (values is b) (new s.ring) s.ring h)
  step_lem (take origin) s h = ground (
    arith,
    pop-IsValid index_bits default (new s.ring) s.ring h,
    contents-pop index_bits default (new s.ring) s.ring h,
  )

  -- From valid bounds, whatever calls are made by whatever origins, the stored bounds stay valid,
  -- and the ring and the events show exactly what the bounded queue of the specification holds and
  -- has given out.
  pub run_refines :
      (ops : List (Op Origin)) (s : State)
      → IsStored s
      → IsStored (run frame ops s) × (view (run frame ops s) ≡ spec_run frame ops (view s))
  unfolding run spec_run
  run_refines [] s h = (h, refl)
  run_refines (op ∷ ops) s h =
      let (h', e) = step_lem op s h in
      let (h'', e') = run_refines ops (step frame op s) h' in (h'', e' ∙ ap (spec_run frame ops) e)
