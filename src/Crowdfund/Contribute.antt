-- ===== src/Crowdfund/Contribute.antt =====
-- `create` and `contribute` keep the storage sound.
use substrate_recipes.Prelude.{
  ℕ, ◌+◌, ◌^◌, ◌≤◌, ◌<◌, ◌≡◌, ◌≢◌, refl, List, some, arith, sym, Bool-cases, Option-cases, inl, inr,
  ltb, leb, true, lt→ltb,
}
use substrate_recipes.Prelude.Words.{saturating_add}
use substrate_recipes.Frame.{Frame, ok, ◌>>=◌}
use substrate_recipes.Frame.Storage.{insert}
use substrate_recipes.Frame.Currency.{done, Attempt-cases, Currency}
use substrate_recipes.Crowdfund.{
  Config, State, FundInfo, Event, fund_account_id, id_from_index, contribute, contribution_put,
  contribution_get,
}
use substrate_recipes.Crowdfund.ChildTrie.{
  put-IsKeyed, total-put, get_or_default-put, get_or_default-le-total, get_or_default,
}
use substrate_recipes.Crowdfund.Runtime.{IsRuntime, pots_differ}
use substrate_recipes.Crowdfund.Sound.{IsSound, Touches, Touches-IsSound}

module _ {Bank : Type 0} {config : Config} {c : Currency Bank} (runtime : IsRuntime config c) where
  -- What a contribution raises stays a value of the balance type.
  raised_fits :
      (index who value : ℕ) (fund : FundInfo) (s : State Bank) (b : Bank)
      → index < 2 ^ 32
      → who ≢ fund_account_id config index
      → IsSound config c s
      → s.funds index ≡ some fund
      → c.transfer who (fund_account_id config index) value s.bank ≡ done b
      → fund.raised + value < 2 ^ config.balance_bits
  raised_fits index who value fund s b small outside h found t =
      let f = h.stored index fund small found in
      let pot = fund_account_id config index in
      let (credit, same, issuance) =
        runtime.currency_laws.transfer_lem who pot value s.bank b outside t in
      omega (
        arith,
        f.covered,
        credit,
        issuance,
        h.issued,
        runtime.currency_laws.free_balance-le pot b,
        runtime.balance_width,
      )

  -- The state after a contribution has been taken.
  contribute-Touches :
      (index who value : ℕ) (fund : FundInfo) (s : State Bank) (b : Bank) (events : List Event)
      → index < 2 ^ 32
      → ((i : ℕ) → who ≢ fund_account_id config i)
      → IsSound config c s
      → s.funds index ≡ some fund
      → c.transfer who (fund_account_id config index) value s.bank ≡ done b
      → let balance =
          saturating_add config.balance_bits (contribution_get config index who s) value in
        let fund' : FundInfo = record fund { raised = fund.raised + value } in
        let s' : State Bank = record s { funds = insert index fund' s.funds; bank = b } in
        Touches config c index s
          (record (contribution_put config index who balance s') { events = events })
  unfolding contribution_put contribution_get
  contribute-Touches index who value fund s b events small outside h found t =
      let f = h.stored index fund small found in
      let trie = s.tries (id_from_index config index) in
      let pot = fund_account_id config index in
      let (credit, same, issuance) =
        runtime.currency_laws.transfer_lem who pot value s.bank b (outside index) t in
      let fits = raised_fits index who value fund s b small (outside index) h found t in
      let most = get_or_default-le-total who trie in
      record {
        in_limit = omega (arith, issuance, h.issued);
        born = f.listed;
        grown = omega arith;
        funds_same = λ i ne. ground arith;
        tries_same = λ i ne. ground arith;
        pots_kept = λ i g hi ne _. omega (
          arith,
          same (fund_account_id config i) (λ p. outside i (sym p))
              (pots_differ runtime i index hi small ne),
        );
        own = λ g e. ground (
          arith,
          f,
          credit,
          fits,
          most,
          total-put who (get_or_default who trie + value) trie,
          put-IsKeyed who (get_or_default who trie + value) trie f.keyed,
        );
      }

module _ {Bank : Type 0} {config : Config} {c : Currency Bank} (runtime : IsRuntime config c)
    {Origin : Type 0} (frame : Frame Origin) where
  -- A contribution by an outsider keeps the storage sound, whether it succeeds or fails.
  pub contribute-IsSound :
      (now : ℕ) (origin : Origin) (index value : ℕ) (s : State Bank)
      → index < 2 ^ 32
      → ((i who : ℕ) → frame.ensure_signed origin ≡ some who → who ≢ fund_account_id config i)
      → IsSound config c s
      → IsSound config c (contribute config frame c now origin index value s).1
  unfolding contribute contribution_put contribution_get
  contribute-IsSound now origin index value s small outside h =
      elim (Option-cases (frame.ensure_signed origin)) [
        | inl e ↦ rw e h
        | inr (who, e) ↦ rw e (elim (Bool-cases (leb config.min_contribution value)) [
          | inr few ↦ rw few h
          | inl enough ↦ rw enough (elim (Option-cases (s.funds index)) [
            | inl missing ↦ rw missing h
            | inr (fund, found) ↦ rw found (elim (Bool-cases (ltb now fund.end)) [
              | inr late ↦ rw late h
              | inl early ↦
                  rw early
                    (elim (Attempt-cases
                      (c.transfer who (fund_account_id config index) value s.bank)) [
                        | inl (_, no_funds) ↦ rw (no_funds, ◌>>=◌) (rw no_funds h)
                        | inr (b, t) ↦
                            rw (t, ◌>>=◌)
                              (rw t (
                                rw
                                  (lt→ltb (fund.raised + value) (2 ^ config.balance_bits) (
                                    raised_fits runtime index who value fund s b small
                                      (outside index who e) h found t))
                                  (Touches-IsSound runtime index s _ small
                                    (contribute-Touches runtime index who value fund s b _ small
                                      (λ i. outside i who e) h found t)
                                    h)))
                      ])
            ])
          ])
        ])
      ]

  -- In a runtime that meets IsRuntime (the deposit covers the minimum balance, pots and hashes of
  -- different funds differ, nothing locks a pot, and the currency is as documented), and in a sound
  -- storage, a contribution of at least the minimum, that the currency lets through, by a caller
  -- that is not the pot, to a stored fund that has not ended, returns ok, whether or not it takes
  -- what was raised above the goal; it adds the value to what was raised, to what is recorded for
  -- the contributor, and to the pot.
  pub contribute_records :
      (now : ℕ) (origin : Origin) (index who value : ℕ) (fund : FundInfo) (s : State Bank)
      (b : Bank)
      → index < 2 ^ 32
      → who ≢ fund_account_id config index
      → IsSound config c s
      → frame.ensure_signed origin ≡ some who
      → s.funds index ≡ some fund
      → config.min_contribution ≤ value
      → now < fund.end
      → c.transfer who (fund_account_id config index) value s.bank ≡ done b
      → let (r, s') = contribute config frame c now origin index value s in
        (r ≡ ok tt)
        × (s'.funds index ≡ some (record fund { raised = fund.raised + value }))
        × (contribution_get config index who s' ≡ contribution_get config index who s + value)
        × (c.free_balance (fund_account_id config index) s'.bank
            ≡ c.free_balance (fund_account_id config index) s.bank + value)
  unfolding contribute contribution_put contribution_get
  contribute_records now origin index who value fund s b small outside h e found enough early t =
      let f = h.stored index fund small found in
      let trie = s.tries (id_from_index config index) in
      let pot = fund_account_id config index in
      let (credit, _, _) = runtime.currency_laws.transfer_lem who pot value s.bank b outside t in
      let fits = raised_fits runtime index who value fund s b small outside h found t in
      let most = get_or_default-le-total who trie in
      let fits' : get_or_default who trie + value < 2 ^ config.balance_bits =
        omega (arith, fits, most, f.counted) in
      let taken : leb config.min_contribution value ≡ true = ground arith in
      rw (e, taken, found, lt→ltb now fund.end early)
        (rw (t, ◌>>=◌)
          (rw
            (
              t,
              lt→ltb (fund.raised + value) (2 ^ config.balance_bits) fits,
              lt→ltb (get_or_default who trie + value) (2 ^ config.balance_bits) fits',
            )
            (
              refl,
              ground arith,
              ground (arith, get_or_default-put who (get_or_default who trie + value) trie),
              credit,
            )))
