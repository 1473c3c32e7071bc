-- ===== src/Frame/Storage.antt =====
-- A storage map as the function that it holds: `none` where no value is stored.
use substrate_recipes.Prelude.{ℕ, Option, none, some, ◌==◌, if◌then◌else◌}

abbrev pub StorageMap : Type 0 → Type 0
StorageMap V = ℕ → Option V

module _ {V : Type 0} where
  abbrev pub insert : ℕ → V → StorageMap V → StorageMap V
  insert k v m j = if j == k then some v else m j

  abbrev pub remove : ℕ → StorageMap V → StorageMap V
  remove k m j = if j == k then none else m j
