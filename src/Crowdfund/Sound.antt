-- ===== src/Crowdfund/Sound.antt =====
-- Soundness of the crowdfund storage: what every stored fund and every child trie satisfy.
use substrate_recipes.Prelude.{
  ℕ, ◌+◌, ◌^◌, ◌≤◌, ◌<◌, ◌≡◌, ◌≢◌, [], some, arith, sym, ℕ_discrete, ◌∙◌, ap, subst,
}
use substrate_recipes.Frame.Currency.{Currency}
use substrate_recipes.Crowdfund.{Config, State, FundInfo, fund_account_id, id_from_index}
use substrate_recipes.Crowdfund.ChildTrie.{IsKeyed, total}
use substrate_recipes.Crowdfund.Runtime.{IsRuntime, tries_differ}

module _ {Bank : Type 0} (config : Config) (c : Currency Bank) where
  -- A stored fund has been created; its deposit keeps its pot alive; the pot covers the deposit and
  -- what was raised; and what was raised is the sum of the recorded contributions, one for each
  -- contributor.
  pub record FundIsSound (s : State Bank) (i : ℕ) (fund : FundInfo) : Type 0 where
    pub listed : i < s.fund_count
    pub minimal : c.minimum_balance ≤ fund.deposit
    pub covered : fund.deposit + fund.raised ≤ c.free_balance (fund_account_id config i) s.bank
    pub counted : total (s.tries (id_from_index config i)) ≡ fund.raised
    pub keyed : IsKeyed (s.tries (id_from_index config i))

  -- Every stored fund is sound, the tries of funds to come are empty, and the issuance of the
  -- currency is a balance.
  pub record IsSound (s : State Bank) : Type 0 where
    pub stored :
        (i : ℕ) (fund : FundInfo) → i < 2 ^ 32 → s.funds i ≡ some fund → FundIsSound s i fund
    pub unborn : (i : ℕ) → i < 2 ^ 32 → s.fund_count ≤ i → s.tries (id_from_index config i) ≡ []
    pub issued : c.total_issuance s.bank < c.balance_limit

  -- What a call may do to the storage when it works on the fund `index`: all else stays, except
  -- that a pot may gain.
  pub record Touches (index : ℕ) (s s' : State Bank) : Type 0 where
    pub in_limit : c.total_issuance s'.bank < c.balance_limit
    pub born : index < s'.fund_count
    pub grown : s.fund_count ≤ s'.fund_count
    pub funds_same : (i : ℕ) → i ≢ index → s'.funds i ≡ s.funds i
    pub tries_same : (i : ℕ) → i ≢ id_from_index config index → s'.tries i ≡ s.tries i
    pub pots_kept :
        (i : ℕ) (fund : FundInfo)
        → i < 2 ^ 32
        → i ≢ index
        → FundIsSound s i fund
        → c.free_balance (fund_account_id config i) s.bank
          ≤ c.free_balance (fund_account_id config i) s'.bank
    pub own : (fund : FundInfo) → s'.funds index ≡ some fund → FundIsSound s' index fund

-- A call that leaves its own fund sound leaves the storage sound.
pub Touches-IsSound :
    {Bank : Type 0} {config : Config} {c : Currency Bank} (runtime : IsRuntime config c) (index : ℕ)
    (s s' : State Bank)
    → index < 2 ^ 32
    → Touches config c index s s'
    → IsSound config c s
    → IsSound config c s'
Touches-IsSound {config} {c} runtime index s s' small t h = record {
  stored = λ i fund hi e. elim (ℕ_discrete i index) [
    | yes p ↦
        subst (λ k. FundIsSound config c s' k fund) (sym p)
          (t.own fund (subst (λ k. s'.funds k ≡ some fund) p e))
    | no ne ↦
        let f = h.stored i fund hi (sym (t.funds_same i ne) ∙ e) in
        let kept = t.pots_kept i fund hi ne f in
        let same =
          t.tries_same (id_from_index config i) (tries_differ runtime i index hi small ne) in
        record {
          listed = omega (arith, f.listed, t.grown);
          minimal = f.minimal;
          covered = omega (arith, f.covered, kept);
          keyed = subst IsKeyed (sym same) f.keyed;
          counted = ap total same ∙ f.counted;
        }
  ];
  unborn = λ i hi new.
      let ne : i ≢ index = λ e. absurd (omega (arith, t.born, e)) in
      t.tries_same (id_from_index config i) (tries_differ runtime i index hi small ne)
      ∙ h.unborn i hi (omega (arith, t.grown));
  issued = t.in_limit;
}
