-- ===== src/Crowdfund/Create.antt =====
-- `create` keeps the storage sound.
use substrate_recipes.Prelude.{
  ℕ, suc, ◌+◌, ◌^◌, ◌<◌, ◌≡◌, ◌≢◌, refl, List, some, arith, sym, subst, Bool-cases, Option-cases,
  inl, inr, ltb, lt→ltb,
}
use substrate_recipes.Frame.{Frame, ◌>>=◌}
use substrate_recipes.Frame.Storage.{insert}
use substrate_recipes.Frame.Currency.{done, Attempt-cases, Currency}
use substrate_recipes.Crowdfund.{Config, State, FundInfo, Event, fund_account_id, create}
use substrate_recipes.Crowdfund.ChildTrie.{IsKeyed, total-nil}
use substrate_recipes.Crowdfund.Runtime.{IsRuntime, pots_differ}
use substrate_recipes.Crowdfund.Sound.{IsSound, Touches, Touches-IsSound}

module _ {Bank : Type 0} {config : Config} {c : Currency Bank} (runtime : IsRuntime config c) where
  -- The state after a fund has been created, at an index that the counter has room for.
  create-Touches :
      (who imbalance : ℕ) (fund : FundInfo) (s : State Bank) (b : Bank) (events : List Event)
      → suc s.fund_count < 2 ^ 32
      → ((i : ℕ) → who ≢ fund_account_id config i)
      → IsSound config c s
      → fund.deposit ≡ config.submission_deposit
      → fund.raised ≡ 0
      → c.withdraw who config.submission_deposit s.bank ≡ done (imbalance, b)
      → let index = s.fund_count in
        Touches config c index s (record {
          funds = insert index fund s.funds;
          fund_count = index + 1;
          tries = s.tries;
          bank = c.resolve_creating (fund_account_id config index) imbalance b;
          events = events;
        })
  create-Touches who imbalance fund s b events room outside h d r w =
      let index = s.fund_count in
      let pot = fund_account_id config index in
      let (exact, issuance, left, same) =
        runtime.currency_laws.withdraw_lem who config.submission_deposit imbalance s.bank b w in
      let (credit, same', issuance') =
        runtime.currency_laws.resolve_creating_lem pot imbalance b
          (omega (arith, exact, issuance, h.issued)) in
      let empty = h.unborn index (omega arith) (omega arith) in
      let covers = runtime.deposit_covers in
      record {
        in_limit = omega (arith, exact, issuance, issuance', h.issued);
        born = omega arith;
        grown = omega arith;
        funds_same = λ i ne. ground arith;
        tries_same = λ i ne. refl;
        pots_kept = λ i g hi ne _. omega (
          arith,
          same (fund_account_id config i) (λ p. outside i (sym p)),
          same' (fund_account_id config i) (pots_differ runtime i index hi (omega arith) ne),
        );
        own = λ g e.
            ground (arith, credit, exact, covers, empty, total-nil, subst IsKeyed (sym empty) tt);
      }

module _ {Bank : Type 0} {config : Config} {c : Currency Bank} (runtime : IsRuntime config c)
    {Origin : Type 0} (frame : Frame Origin) where
  -- A creation by an outsider keeps the storage sound, whether it succeeds or fails.
  pub create-IsSound :
      (now : ℕ) (origin : Origin) (beneficiary goal end : ℕ) (s : State Bank)
      → suc s.fund_count < 2 ^ 32
      → ((i who : ℕ) → frame.ensure_signed origin ≡ some who → who ≢ fund_account_id config i)
      → IsSound config c s
      → IsSound config c (create config frame c now origin beneficiary goal end s).1
  unfolding create
  create-IsSound now origin beneficiary goal end s room outside h =
      elim (Option-cases (frame.ensure_signed origin)) [
        | inl e ↦ rw e h
        | inr (who, e) ↦ rw e (elim (Bool-cases (ltb now end)) [
          | inr early ↦ rw early h
          | inl late ↦
              rw late (elim (Attempt-cases (c.withdraw who config.submission_deposit s.bank)) [
                | inl (_, no_funds) ↦ rw (no_funds, ◌>>=◌) (rw no_funds h)
                | inr ((imbalance, b), w) ↦
                    rw (w, ◌>>=◌)
                      (rw w (
                        rw (lt→ltb (s.fund_count + 1) (2 ^ 32) (omega arith)) (
                          Touches-IsSound runtime s.fund_count s _ (omega arith)
                            (create-Touches runtime who imbalance _ s b _ room
                              (λ i. outside i who e) h refl refl w)
                            h)))
              ])
        ])
      ]
