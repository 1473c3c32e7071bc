-- ===== src/Mock/Bank.antt =====
-- A currency for the small runtime: the balances by account in a list, of which one unit keeps an
-- account alive.
use substrate_recipes.Prelude.{
  ℕ, ◌+◌, ◌-◌, ◌^◌, ◌≤◌, ◌≡◌, refl, [], ◌∷◌, ◌==◌, if◌then◌else◌, ltb, arith, Bool, true, false,
  sym, ap,
}
use substrate_recipes.Frame.Currency.{done, failed, Currency, IsCurrency}
use substrate_recipes.Crowdfund.ChildTrie.{
  Trie, get_or_default, put, total, total-put, get_or_default-le-total,
}

abbrev pub take_out : ℕ → ℕ → Trie → Trie
take_out a x b = put a (get_or_default a b - x) b

abbrev pub put_in : ℕ → ℕ → Trie → Trie
put_in a x b = put a (get_or_default a b + x) b

abbrev pub bank : Currency Trie
bank = record {
  balance_limit = 2 ^ 64;
  minimum_balance = 1;
  total_issuance = total;
  free_balance = get_or_default;
  transfer = λ a z x b.
      if ltb (get_or_default a b) x then failed 0 else done (put_in z x (take_out a x b));
  withdraw = λ a x b. if ltb (get_or_default a b) x then failed 0 else done (x, take_out a x b);
  resolve_creating = put_in;
  resolve_into_existing = λ a x b. if ltb 0 (get_or_default a b) then put_in a x b else b;
}

pub get-put :
    (j k v : ℕ) (b : Trie)
    → get_or_default j (put k v b) ≡ (if j == k then v else get_or_default j b)
get-put j k v [] = ground arith
get-put j k v ((i, w) ∷ b) = ground (arith, get-put j k v b)

total-put_in : (a x : ℕ) (b : Trie) → total (put_in a x b) ≡ total b + x
total-put_in a x b = omega (arith, total-put a (get_or_default a b + x) b)

total-take_out :
    (a x : ℕ) (b : Trie) → x ≤ get_or_default a b → total (take_out a x b) + x ≡ total b
total-take_out a x b h = omega (arith, total-put a (get_or_default a b - x) b)

-- Only the branch of a covered amount is done.
pub done_inv :
    {A : Type 0} (short : Bool) (c d : A)
    → (if short then failed 0 else done c) ≡ done d
    → (short ≡ false) × (c ≡ d)
done_inv true c d e = cc
done_inv false c d e = (refl, cc)

pub bank_laws : IsCurrency bank
bank_laws = record {
  free_balance-le = get_or_default-le-total;
  transfer_lem = λ a z x b b' ne e.
      let (short, same) =
        done_inv (ltb (get_or_default a b) x) (put_in z x (take_out a x b)) b' e in
      let covered : x ≤ get_or_default a b = ground arith in
      rw (sym same) (
        ground (
          arith,
          get-put z z (get_or_default z (take_out a x b) + x) (take_out a x b),
          get-put z a (get_or_default a b - x) b,
        ),
        λ j ja jz. ground (
          arith,
          get-put j z (get_or_default z (take_out a x b) + x) (take_out a x b),
          get-put j a (get_or_default a b - x) b,
        ),
        omega (arith, total-put_in z x (take_out a x b), total-take_out a x b covered),
      );
  withdraw_lem = λ a x i b b' e.
      let (short, same) = done_inv (ltb (get_or_default a b) x) (x, take_out a x b) (i, b') e in
      let covered : x ≤ get_or_default a b = ground arith in
      let same' : take_out a x b ≡ b' = ap (λ p. p.1) same in
      (
        sym (ap (λ p. p.0) same),
        rw (sym same') (omega (arith, total-take_out a x b covered)),
        λ m. rw (sym same') (ground (arith, get-put a a (get_or_default a b - x) b)),
        λ j ne. rw (sym same') (ground (arith, get-put j a (get_or_default a b - x) b)),
      );
  resolve_creating_lem = λ a x b h. (
    λ m. ground (arith, get-put a a (get_or_default a b + x) b),
    λ j ne. ground (arith, get-put j a (get_or_default a b + x) b),
    omega (arith, total-put_in a x b),
  );
  resolve_into_existing_lem = λ a x b h. (
    λ alive. ground (arith, get-put a a (get_or_default a b + x) b),
    λ j ne. ground (arith, get-put j a (get_or_default a b + x) b),
    ground (arith, total-put_in a x b),
  );
}
