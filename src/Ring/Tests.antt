-- ===== src/Ring/Tests.antt =====
-- Runs of the ring and of the pallet over it, and the theorems about them at these runs.
use substrate_recipes.Prelude.{
  ℕ, ◌≡◌, refl, ◌==◌, if◌then◌else◌, true, false, none, some, List, [], ◌∷◌, arith,
}
use substrate_recipes.Mock.{Origin, mock_frame}
use substrate_recipes.Ring.{Transient, Backing, new, push}
use substrate_recipes.Ring.Queue
use substrate_recipes.Ring.Refine.{IsValid, contents}
use substrate_recipes.Ring.Pallet.{State, ValueStruct}
use substrate_recipes.Ring.Pallet.Spec.{
  Op, add, add_many, take, view, IsStored, run, spec_run, run_refines,
}

-- A ring of four indices whose newest item stands below its oldest.
abbrev wrapped : Transient
wrapped = record { start = 3; end = 1 }

abbrev backing : Backing ℕ
backing = record {
  bounds = (3, 1);
  items = λ i. if i == 3 then some 30 else if i == 0 then some 40 else none;
}

wrapped-IsValid : IsValid 2 wrapped
wrapped-IsValid = record { start_in = omega arith; end_in = omega arith }

wrapped-contents : contents 2 0 wrapped backing ≡ 30 ∷ 40 ∷ []
wrapped-contents = refl

-- The third item fills the ring, and a fourth drives the oldest out.
abbrev filled : Transient × Backing ℕ
filled = push 2 0 50 wrapped backing

abbrev overfilled : Transient × Backing ℕ
overfilled = push 2 0 60 filled.0 filled.1

overfilled-contents : contents 2 0 overfilled.0 overfilled.1 ≡ 40 ∷ 50 ∷ 60 ∷ []
unfolding push
overfilled-contents = refl

abbrev empty : State
empty = record { ring = record { bounds = (0, 0); items = λ i. none }; events = [] }

-- Three items from two callers, a call that nobody signs, and two items taken.
abbrev calls : List (Op Origin)
calls =
    add (some 1) 10 true
    ∷ add none 99 true
    ∷ add_many (some 2) (20 ∷ 30 ∷ []) false
    ∷ take (some 1)
    ∷ take (some 2)
    ∷ []

abbrev third : ValueStruct
third = record { integer = 30; boolean = false }

calls_queue : (spec_run mock_frame calls (record { queue = []; events = [] })).queue ≡ third ∷ []
unfolding spec_run Queue.push Queue.pop
calls_queue = refl

empty-IsStored : IsStored empty
unfolding new
empty-IsStored = record { start_in = omega arith; end_in = omega arith }

run_refines_example :
    IsStored (run mock_frame calls empty)
    × (view (run mock_frame calls empty) ≡ spec_run mock_frame calls (view empty))
run_refines_example = run_refines mock_frame calls empty empty-IsStored
