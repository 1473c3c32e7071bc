-- ===== src/Genesis/Keys.antt =====
-- The keys of the seeds of a genesis (runtimes/super-runtime/src/genesis.rs): which accounts they give.
use Prim.Native.String
use Prim.Native.String.{String}
use text.Mathlib.Text.{◌==◌}
use text.Mathlib.TextEquality.{eq_iff}
use substrate_recipes.Prelude.{
  ℕ, ◌≡◌, refl, Bool, true, false, not, ◌&&◌, ◌||◌, some, List, [], ◌∷◌, map, All, arith,
}
use substrate_recipes.SortedVec.{contains}
use substrate_recipes.BasicToken.Supply.{AreDistinct}
use substrate_recipes.Genesis.{Crypto, get_from_seed, account_id_from_seed, account_ids}

abbrev pub text_in : String → List String → Bool
text_in s [] = false
text_in s (t ∷ ts) = s == t || text_in s ts

abbrev pub distinct_texts : List String → Bool
distinct_texts [] = true
distinct_texts (t ∷ ts) = not (text_in t ts) && distinct_texts ts

-- The URIs of these seeds parse, and no two of them have the same account.
pub record AreKeys (crypto : Crypto) (seeds : List String) : Type 0 where
  pub key : String → ℕ
  pub parses :
      (s : String) → text_in s seeds ≡ true → crypto.from_string (String.◌++◌ "//" s) ≡ some (key s)
  pub differ :
      (s t : String)
      → text_in s seeds ≡ true
      → text_in t seeds ≡ true
      → crypto.into_account (key s) ≡ crypto.into_account (key t)
      → s ≡ t

module _ {crypto : Crypto} {seeds : List String} (keys : AreKeys crypto seeds) where
  abbrev pub account : String → ℕ
  account s = crypto.into_account (keys.key s)

  -- The part `ts` of the seeds.
  abbrev pub AreAmong : List String → Type 0
  AreAmong ts = All (λ t. text_in t seeds ≡ true) ts

  pub account_id_known :
      (s : String) → text_in s seeds ≡ true → account_id_from_seed crypto s ≡ some (account s)
  unfolding account_id_from_seed get_from_seed
  account_id_known s h = rw (keys.parses s h) refl

  pub accounts : (ts : List String) → AreAmong ts → account_ids crypto ts ≡ some (map account ts)
  unfolding account_ids
  accounts [] h = refl
  accounts (t ∷ ts) (h, hs) = rw (account_id_known t h, accounts ts hs) refl

  account_new :
      (s : String) (ts : List String)
      → text_in s seeds ≡ true
      → AreAmong ts
      → text_in s ts ≡ false
      → contains (account s) (map account ts) ≡ false
  account_new s [] hs h new = refl
  account_new s (t ∷ ts) hs (h, hts) new =
      ground (arith, eq_iff s t, keys.differ s t hs h, account_new s ts hs hts)

  pub accounts-AreDistinct :
      (ts : List String) → AreAmong ts → distinct_texts ts ≡ true → AreDistinct (map account ts)
  accounts-AreDistinct [] h d = tt
  accounts-AreDistinct (t ∷ ts) (h, hs) d =
      (account_new t ts h hs (ground arith), accounts-AreDistinct ts hs (ground arith))
