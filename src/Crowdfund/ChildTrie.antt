-- ===== src/Crowdfund/ChildTrie.antt =====
-- A child trie of contributions (`child::put`, `get_or_default`, `kill`): the entries by key.
use substrate_recipes.Prelude.{
  ℕ, ◌+◌, ◌≤◌, ◌≡◌, List, [], ◌∷◌, ◌==◌, ◌||◌, Bool, false, refl, if◌then◌else◌, arith,
}

abbrev pub Trie : Type 0
Trie = List (ℕ × ℕ)

abbrev pub get_or_default : ℕ → Trie → ℕ
get_or_default k [] = 0
get_or_default k ((j, v) ∷ t) = if j == k then v else get_or_default k t

abbrev pub put : ℕ → ℕ → Trie → Trie
put k v [] = (k, v) ∷ []
put k v ((j, w) ∷ t) = if j == k then (k, v) ∷ t else (j, w) ∷ put k v t

abbrev pub kill : ℕ → Trie → Trie
kill k [] = []
kill k ((j, w) ∷ t) = if j == k then t else (j, w) ∷ kill k t

-- The sum of the entries.
unfoldable pub total : Trie → ℕ
total [] = 0
total ((j, v) ∷ t) = v + total t

pub total-nil : total [] ≡ 0
unfolding total
total-nil = omega arith

pub total-put : (k v : ℕ) (t : Trie) → total (put k v t) + get_or_default k t ≡ total t + v
unfolding total
total-put k v [] = omega arith
total-put k v ((j, w) ∷ t) = ground (arith, total-put k v t)

pub total-kill : (k : ℕ) (t : Trie) → total (kill k t) + get_or_default k t ≡ total t
unfolding total
total-kill k [] = omega arith
total-kill k ((j, w) ∷ t) = ground (arith, total-kill k t)

pub get_or_default-le-total : (k : ℕ) (t : Trie) → get_or_default k t ≤ total t
unfolding total
get_or_default-le-total k [] = omega arith
get_or_default-le-total k ((j, w) ∷ t) = ground (arith, get_or_default-le-total k t)

pub get_or_default-put : (k v : ℕ) (t : Trie) → get_or_default k (put k v t) ≡ v
get_or_default-put k v [] = ground arith
get_or_default-put k v ((j, w) ∷ t) = ground (arith, get_or_default-put k v t)

abbrev pub has_key : ℕ → Trie → Bool
has_key k [] = false
has_key k ((j, v) ∷ t) = j == k || has_key k t

-- No key stands twice.
abbrev pub IsKeyed : Trie → Type 0
IsKeyed [] = Unit
IsKeyed ((j, v) ∷ t) = (has_key j t ≡ false) × IsKeyed t

has_key-put : (i k v : ℕ) (t : Trie) → has_key i (put k v t) ≡ (k == i || has_key i t)
has_key-put i k v [] = ground arith
has_key-put i k v ((j, w) ∷ t) = ground (arith, has_key-put i k v t)

has_key-kill : (i k : ℕ) (t : Trie) → has_key i t ≡ false → has_key i (kill k t) ≡ false
has_key-kill i k [] h = refl
has_key-kill i k ((j, w) ∷ t) h = ground (arith, has_key-kill i k t)

get_or_default-absent : (k : ℕ) (t : Trie) → has_key k t ≡ false → get_or_default k t ≡ 0
get_or_default-absent k [] h = refl
get_or_default-absent k ((j, w) ∷ t) h = ground (arith, get_or_default-absent k t)

pub put-IsKeyed : (k v : ℕ) (t : Trie) → IsKeyed t → IsKeyed (put k v t)
put-IsKeyed k v [] h = (refl, tt)
put-IsKeyed k v ((j, w) ∷ t) h = ground (arith, put-IsKeyed k v t, has_key-put j k v t)

pub kill-IsKeyed : (k : ℕ) (t : Trie) → IsKeyed t → IsKeyed (kill k t)
kill-IsKeyed k [] h = tt
kill-IsKeyed k ((j, w) ∷ t) h = ground (arith, kill-IsKeyed k t, has_key-kill j k t)

pub get_or_default-kill : (k : ℕ) (t : Trie) → IsKeyed t → get_or_default k (kill k t) ≡ 0
get_or_default-kill k [] h = refl
get_or_default-kill k ((j, w) ∷ t) h =
    ground (arith, get_or_default-kill k t, get_or_default-absent k t)
