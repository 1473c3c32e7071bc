-- ===== src/Ring/Refine.antt =====
-- A ring with valid bounds holds the queue of the items from `start` up to `end`, and each of its
-- methods does to that queue what the specification says.
use native.Mathlib.Nat.{mod-eq_of_lt, mod_self}
use substrate_recipes.Prelude.{
  ℕ, zero, suc, ◌+◌, ◌-◌, ◌%◌, ◌^◌, ◌<◌, ◌≤◌, ◌≡◌, ◌≢◌, refl, some, List, [], ◌∷◌, ◌++◌, length,
  ◌==◌, ltb, if◌then◌else◌, unwrap_or, arith, ap, ap₂, ℕ_discrete, Bool-cases, inl, inr, ◌∙◌, true,
  false,
}
use substrate_recipes.Prelude.Words.{wrapping_add}
use substrate_recipes.Frame.Storage.{insert, remove}
use substrate_recipes.Ring.{Transient, Backing, is_empty, push, pop}
use substrate_recipes.Ring.Queue
use substrate_recipes.Ring.Queue.{tail}

-- One index further, among `size` indices.
abbrev pub next : ℕ → ℕ → ℕ
next size i = if i + 1 == size then 0 else i + 1

-- A wrapping increment is one step round the ring.
pub wrapping_add-eq-next : (bits i : ℕ) → i < 2 ^ bits → wrapping_add bits i 1 ≡ next (2 ^ bits) i
wrapping_add-eq-next bits i h = elim (ℕ_discrete (i + 1) (2 ^ bits)) [
  | yes e ↦ ground (arith, mod_self (2 ^ bits), ap (λ k. k % 2 ^ bits) e)
  | no ne ↦ ground (arith, mod-eq_of_lt {n = i + 1} {m = 2 ^ bits} (omega arith))
]

-- The number of items from index `start` up to `end`.
abbrev pub distance : ℕ → ℕ → ℕ → ℕ
distance size start end = if ltb end start then end + size - start else end - start

module _ {Item : Type 0} (size : ℕ) where
  -- The `n` items from index `i` on.
  abbrev pub window : (ℕ → Item) → ℕ → ℕ → List Item
  window f i zero = []
  window f i (suc n) = f i ∷ window f (next size i) n

  pub length-window : (f : ℕ → Item) (i n : ℕ) → length (window f i n) ≡ n
  length-window f i zero = refl
  length-window f i (suc n) = ap suc (length-window f (next size i) n)

  -- Writing just past a window extends it.
  pub window-write :
      (f g : ℕ → Item) (x : Item) (n i k : ℕ)
      → i < size
      → n < size
      → k ≡ (if ltb (i + n) size then i + n else i + n - size)
      → g k ≡ x
      → ((j : ℕ) → j ≢ k → g j ≡ f j)
      → window g i (suc n) ≡ window f i n ++ (x ∷ [])
  window-write f g x zero i k hi hn e ex same = ground arith
  window-write f g x (suc n) i k hi hn e ex same =
      ap₂ ◌∷◌ (same i (ground arith))
        (window-write f g x n (next size i) k (ground arith) (omega arith) (ground arith) ex same)

  -- A write outside a window leaves it alone.
  pub window-same :
      (f g : ℕ → Item) (n i k : ℕ)
      → i < size
      → k < size
      → n ≤ distance size i k
      → ((j : ℕ) → j ≢ k → g j ≡ f j)
      → window g i n ≡ window f i n
  window-same f g zero i k hi hk hn same = refl
  window-same f g (suc n) i k hi hk hn same =
      ap₂ ◌∷◌ (same i (ground arith))
        (window-same f g n (next size i) k (ground arith) hk (ground arith) same)

-- A ring that is not empty has one item more than it has from the next index on.
distance-next :
    (size start end : ℕ)
    → start < size
    → end < size
    → start ≢ end
    → distance size start end ≡ suc (distance size (next size start) end)
distance-next size start end hs he ne = ground arith

module _ (size start end : ℕ) where
  full_distance :
      start < size
      → end < size
      → (next size end == start) ≡ true
      → (distance size start end == size - 1) ≡ true
  full_distance hs he full = ground arith

  full_distance-next :
      start < size
      → end < size
      → (next size end == start) ≡ true
      → distance size (next size start) (next size end) ≡ distance size start end
  full_distance-next hs he full = ground arith

  room_distance :
      start < size
      → end < size
      → (next size end == start) ≡ false
      → (distance size start end == size - 1) ≡ false
  room_distance hs he room = ground arith

  room_distance-next :
      start < size
      → end < size
      → (next size end == start) ≡ false
      → distance size start (next size end) ≡ suc (distance size start end)
  room_distance-next hs he room = ground arith

  empty_distance : (start == end) ≡ true → distance size start end ≡ 0
  empty_distance e = ground arith

-- Both bounds are values of `Index`.
pub record IsValid (bits : ℕ) (t : Transient) : Type 0 where
  pub start_in : t.start < 2 ^ bits
  pub end_in : t.end < 2 ^ bits

module _ {Item : Type 0} (bits : ℕ) (default : Item) where
  abbrev pub cell : Backing Item → ℕ → Item
  cell b i = unwrap_or (b.items i) default

  -- The queue that a ring holds.
  abbrev pub contents : Transient → Backing Item → List Item
  contents t b = window (2 ^ bits) (cell b) t.start (distance (2 ^ bits) t.start t.end)

  -- The write of `push`, before the bounds move.
  written :
      (x : Item) (t : Transient) (b : Backing Item)
      → IsValid bits t
      → window
          (2 ^ bits)
          (cell (record b { items = insert t.end x b.items }))
          t.start
          (suc (distance (2 ^ bits) t.start t.end))
        ≡ contents t b ++ (x ∷ [])
  written x t b v =
      window-write (2 ^ bits) (cell b) (cell (record b { items = insert t.end x b.items })) x
        (distance (2 ^ bits) t.start t.end) t.start t.end v.start_in (ground arith) (ground arith)
        (ground arith) (λ j ne. ground arith)

  pub push-IsValid :
      (x : Item) (t : Transient) (b : Backing Item)
      → IsValid bits t
      → IsValid bits (push bits default x t b).0
  unfolding push
  push-IsValid x t b v = ground (
    arith,
    wrapping_add-eq-next bits t.end v.end_in,
    wrapping_add-eq-next bits t.start v.start_in,
  )

  -- On valid bounds a push appends its item to the queue that the ring holds, and where the queue
  -- had all the items that fit, one fewer than there are indices, the oldest goes.
  pub contents-push :
      (x : Item) (t : Transient) (b : Backing Item)
      → IsValid bits t
      → let (t', b') = push bits default x t b in
        contents t' b' ≡ Queue.push (2 ^ bits - 1) x (contents t b)
  unfolding push Queue.push
  contents-push x t b v =
      let size : ℕ = 2 ^ bits in
      let g : ℕ → Item = cell (record b { items = insert t.end x b.items }) in
      elim (Bool-cases (next size t.end == t.start)) [
        | inl full ↦
            rw
              (
                wrapping_add-eq-next bits t.end v.end_in,
                wrapping_add-eq-next bits t.start v.start_in,
                full,
                length-window,
                full_distance size t.start t.end v.start_in v.end_in full,
              )
              (ap (window size g (next size t.start))
                  (full_distance-next size t.start t.end v.start_in v.end_in full)
                ∙ ap tail (written x t b v))
        | inr room ↦
            rw
              (
                wrapping_add-eq-next bits t.end v.end_in,
                room,
                length-window,
                room_distance size t.start t.end v.start_in v.end_in room,
              )
              (ap (window size g t.start)
                  (room_distance-next size t.start t.end v.start_in v.end_in room)
                ∙ written x t b v)
      ]

  pub pop-IsValid :
      (t : Transient) (b : Backing Item) → IsValid bits t → IsValid bits (pop bits default t b).1
  unfolding pop is_empty
  pop-IsValid t b v = ground (arith, wrapping_add-eq-next bits t.start v.start_in)

  -- On valid bounds a pop gives the oldest item of the queue that the ring holds and leaves the
  -- rest, and gives nothing from an empty queue and leaves it empty.
  pub contents-pop :
      (t : Transient) (b : Backing Item)
      → IsValid bits t
      → let (out, t', b') = pop bits default t b in (out, contents t' b') ≡ Queue.pop (contents t b)
  unfolding pop is_empty Queue.pop
  contents-pop t b v = elim (Bool-cases (t.start == t.end)) [
    | inl e ↦ rw (e, empty_distance (2 ^ bits) t.start t.end e)
    | inr ne ↦
        rw
          (
            ne,
            wrapping_add-eq-next bits t.start v.start_in,
            distance-next (2 ^ bits) t.start t.end v.start_in v.end_in (ground arith),
          )
          (ap (λ q. (some (cell b t.start), q))
            (window-same (2 ^ bits) (cell b) (cell (record b { items = remove t.start b.items }))
              (distance (2 ^ bits) (next (2 ^ bits) t.start) t.end) (next (2 ^ bits) t.start)
              t.start (ground arith) v.start_in (ground arith) (λ j other. ground arith)))
  ]
