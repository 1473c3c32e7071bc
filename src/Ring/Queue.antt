-- ===== src/Ring/Queue.antt =====
-- What the trait `RingBufferTrait` promises: a first-in first-out queue that holds at most `cap`
-- items, and that gives up its oldest item when one more is pushed.
use substrate_recipes.Prelude.{
  ℕ, Option, none, some, List, [], ◌∷◌, ◌++◌, length, ◌==◌, if◌then◌else◌,
}

module _ {Item : Type 0} where
  abbrev pub tail : List Item → List Item
  tail [] = []
  tail (x ∷ xs) = xs

  unfoldable pub push : ℕ → Item → List Item → List Item
  push cap x q = if length q == cap then tail (q ++ (x ∷ [])) else q ++ (x ∷ [])

  unfoldable pub pop : List Item → Option Item × List Item
  pop [] = (none, [])
  pop (x ∷ q) = (some x, q)
