-- ===== src/Mock/Reserve.antt =====
-- A currency with reserves for the small runtime: the free and the reserved balances.
use substrate_recipes.Prelude.{ℕ, ◌+◌, ◌-◌, ◌≤◌, min, ltb, if◌then◌else◌, arith, sym}
use substrate_recipes.Frame.Currency.{Attempt, done, failed, Currency}
use substrate_recipes.Frame.Reservable.{Reservable, IsReservable}
use substrate_recipes.Crowdfund.ChildTrie.{Trie, get_or_default}
use substrate_recipes.Mock.Bank.{bank, take_out, put_in, get-put, done_inv}

abbrev pub Reserves : Type 0
Reserves = Trie × Trie

abbrev with_reserves : Trie → Attempt Trie → Attempt Reserves
with_reserves r (done f) = done (f, r)
with_reserves r (failed e) = failed e

abbrev with_imbalance : Trie → Attempt (ℕ × Trie) → Attempt (ℕ × Reserves)
with_imbalance r (done (i, f)) = done (i, (f, r))
with_imbalance r (failed e) = failed e

abbrev free_currency : Currency Reserves
free_currency = record {
  balance_limit = bank.balance_limit;
  minimum_balance = 1;
  total_issuance = λ b. bank.total_issuance b.0 + bank.total_issuance b.1;
  free_balance = λ a b. get_or_default a b.0;
  transfer = λ a z x b. with_reserves b.1 (bank.transfer a z x b.0);
  withdraw = λ a x b. with_imbalance b.1 (bank.withdraw a x b.0);
  resolve_creating = λ a x b. (bank.resolve_creating a x b.0, b.1);
  resolve_into_existing = λ a x b. (bank.resolve_into_existing a x b.0, b.1);
}

abbrev pub reserves : Reservable Reserves
reserves = record {
  currency = free_currency;
  reserved_balance = λ a b. get_or_default a b.1;
  reserve = λ a x b.
      if ltb (get_or_default a b.0) x then failed 0 else done (take_out a x b.0, put_in a x b.1);
  unreserve = λ a x b.
      let m = min x (get_or_default a b.1) in
      (x - get_or_default a b.1, (put_in a m b.0, take_out a m b.1));
}

pub reserves_laws : IsReservable reserves
reserves_laws = record {
  reserve_lem = λ a x b b' e.
      let (f, r) = b in
      let (short, same) =
        done_inv (ltb (get_or_default a f) x) (take_out a x f, put_in a x r) b' e in
      let covered : x ≤ get_or_default a f = ground arith in
      rw (sym same) (
        ground (arith, get-put a a (get_or_default a f - x) f),
        ground (arith, get-put a a (get_or_default a r + x) r),
        λ j ne. (
          ground (arith, get-put j a (get_or_default a f - x) f),
          ground (arith, get-put j a (get_or_default a r + x) r),
        ),
      );
  unreserve_lem = λ a x b.
      let (f, r) = b in
      let m = min x (get_or_default a r) in
      (
        omega arith,
        ground (arith, get-put a a (get_or_default a f + m) f),
        ground (arith, get-put a a (get_or_default a r - m) r),
        λ j ne. (
          ground (arith, get-put j a (get_or_default a f + m) f),
          ground (arith, get-put j a (get_or_default a r - m) r),
        ),
      );
}
