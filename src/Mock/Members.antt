-- ===== src/Mock/Members.antt =====
-- The same two members in a vector set and in a map set.
use substrate_recipes.Prelude.{refl, [], ◌∷◌, arith}
use substrate_recipes.VecSet
use substrate_recipes.VecSet.Members
use substrate_recipes.MapSet
use substrate_recipes.MapSet.Agree.{Agree}

abbrev pub vec_members : VecSet.State
vec_members = record { members = 3 ∷ 8 ∷ []; events = [] }

abbrev pub map_members : MapSet.State
map_members = record { members = 8 ∷ 3 ∷ []; member_count = 2; events = [] }

pub vec_members-IsValid : Members.IsValid vec_members
vec_members-IsValid = record { sorted = ground arith; bounded = omega arith }

pub both-Agree : Agree vec_members map_members
both-Agree = record {
  vec_valid = vec_members-IsValid;
  map_valid = record { keyed = ground arith; counted = refl; bounded = omega arith };
  same_members = λ j. ground arith;
  same_size = refl;
  same_events = refl;
}
