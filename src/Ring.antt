-- ===== src/Ring.antt =====
-- The transient ring buffer (pallets/ringbuffer-queue/src/ringbuffer.rs): the bounds in memory,
-- the two storage items behind them, and the methods of `RingBufferTrait`.
pub mod Queue
pub mod Refine
pub mod Pallet
mod Tests
use substrate_recipes.Prelude.{ℕ, Bool, Option, none, some, ◌==◌, if◌then◌else◌, unwrap_or}
use substrate_recipes.Prelude.Words.{wrapping_add}
use substrate_recipes.Frame.Storage.{StorageMap, insert, remove}

-- `RingBufferTransient`: the bounds that are held in memory.
pub record Transient : Type 0 where
  pub start : ℕ
  pub end : ℕ

-- The two storage items behind a ring: `B`, the bounds, and `M`, the items by index.
pub record Backing (Item : Type 0) : Type 0 where
  pub bounds : ℕ × ℕ
  pub items : StorageMap Item

-- `RingBufferTransient::new`
unfoldable pub new : {Item : Type 0} → Backing Item → Transient
new b = record { start = b.bounds.0; end = b.bounds.1 }

-- `commit`, which `drop` calls.
pub commit : {Item : Type 0} → Transient → Backing Item → Backing Item
commit t b = record b { bounds = (t.start, t.end) }

pub is_empty : Transient → Bool
is_empty t = t.start == t.end

-- `bits` is the width of `Index`, and `default` what `M` yields for a missing key.
module _ {Item : Type 0} (bits : ℕ) (default : Item) where
  pub push : Item → Transient → Backing Item → Transient × Backing Item
  push item t b =
      let next_index = wrapping_add bits t.end 1 in
      let start = if next_index == t.start then wrapping_add bits t.start 1 else t.start in
      (record { start = start; end = next_index }, record b { items = insert t.end item b.items })

  -- `M::take` reads the item, or the default where there is none, and removes it.
  pub pop : Transient → Backing Item → Option Item × Transient × Backing Item
  unfolding is_empty
  pop t b = if is_empty t then (none, t, b) else (
    some (unwrap_or (b.items t.start) default),
    record t { start = wrapping_add bits t.start 1 },
    record b { items = remove t.start b.items },
  )
