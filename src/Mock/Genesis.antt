-- ===== src/Mock/Genesis.antt =====
-- A balances pallet for the small runtime that begins with what it is given, and keys that are the
-- places of their URIs in a list.
use Prim.Native.String
use Prim.Native.String.{String}
use text.Mathlib.Text.{◌==◌}
use text.Mathlib.TextEquality.{eq_iff}
use text.Mathlib.TextLemmas.{append_cancel_left}
use substrate_recipes.Prelude.{
  ℕ, zero, suc, ◌+◌, ◌≡◌, refl, sym, ap, ◌∙◌, false, true, some, List, [], ◌∷◌, map, All, get_or,
  arith, if◌then◌else◌,
}
use substrate_recipes.Crowdfund.ChildTrie.{Trie, get_or_default, put}
use substrate_recipes.SortedVec.{contains}
use substrate_recipes.BasicToken.Supply.{AreDistinct}
use substrate_recipes.Genesis.{Crypto}
use substrate_recipes.Genesis.Keys.{AreKeys, text_in}
use substrate_recipes.Genesis.Build.{Balances, IsBalances, owner}
use substrate_recipes.Mock.Bank.{bank, get-put}

abbrev puts : List (ℕ × ℕ) → Trie
puts [] = []
puts ((k, x) ∷ bs) = put k x (puts bs)

abbrev pub balances : Balances Trie
balances = record { build_balances = λ bs. some (puts bs); make_free_balance_be = put }

others :
    (k x : ℕ) (b : Trie) (bs : List (ℕ × ℕ))
    → contains k (map owner bs) ≡ false
    → All (λ p. get_or_default p.0 b ≡ p.1) bs
    → All (λ p. get_or_default p.0 (put k x b) ≡ p.1) bs
others k x b [] new h = tt
others k x b ((j, y) ∷ bs) new (h, hs) =
    (ground (arith, get-put j k x b), others k x b bs (ground arith) hs)

puts_lem :
    (bs : List (ℕ × ℕ))
    → AreDistinct (map owner bs)
    → All (λ p. get_or_default p.0 (puts bs) ≡ p.1) bs
puts_lem [] d = tt
puts_lem ((k, x) ∷ bs) (new, d) =
    (ground (arith, get-put k k x (puts bs)), others k x (puts bs) bs new (puts_lem bs d))

pub balances-IsBalances : IsBalances bank balances
balances-IsBalances = record {
  build_lem = λ bs d m h. (puts bs, refl, puts_lem bs d);
  make_lem = λ a x b h. (ground (arith, get-put a a x b), λ j ne. ground (arith, get-put j a x b));
}

abbrev index : String → List String → ℕ
index s [] = zero
index s (t ∷ ts) = if s == t then zero else suc (index s ts)

abbrev uri : String → String
uri s = String.◌++◌ "//" s

get_or-index : (s : String) (ts : List String) → text_in s ts ≡ true → get_or ts (index s ts) "" ≡ s
get_or-index s [] h = cc
get_or-index s (t ∷ ts) h = ground (arith, eq_iff s t, get_or-index s ts)

text_in-uri :
    (s : String) (ts : List String) → text_in s ts ≡ true → text_in (uri s) (map uri ts) ≡ true
text_in-uri s [] h = cc
text_in-uri s (t ∷ ts) h = ground (arith, eq_iff s t, eq_iff (uri s) (uri t), text_in-uri s ts)

-- Account 1000 and those behind it.
abbrev pub keyring : List String → Crypto
keyring seeds = record {
  from_string = λ u. some (index u (map uri seeds));
  into_account = λ k. 1000 + k;
}

pub keyring-AreKeys : (seeds : List String) → AreKeys (keyring seeds) seeds
keyring-AreKeys seeds = record {
  key = λ s. index (uri s) (map uri seeds);
  parses = λ s h. refl;
  differ = λ s t hs ht e.
      let same : index (uri s) (map uri seeds) ≡ index (uri t) (map uri seeds) = omega (arith, e) in
      append_cancel_left "//" s t (
        sym (get_or-index (uri s) (map uri seeds) (text_in-uri s seeds hs))
        ∙ ap (λ n. get_or (map uri seeds) n "") same
        ∙ get_or-index (uri t) (map uri seeds) (text_in-uri t seeds ht));
}
