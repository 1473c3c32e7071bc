-- ===== src/Crowdfund/Withdraw.antt =====
-- `withdraw` keeps the storage sound.
use substrate_recipes.Prelude.{
  ℕ, ◌+◌, ◌-◌, ◌^◌, ◌≤◌, ◌<◌, ◌≡◌, ◌≢◌, refl, List, some, arith, sym, Bool-cases, Option-cases, inl,
  inr, ltb, lt→ltb,
}
use substrate_recipes.Prelude.Words.{saturating_sub}
use substrate_recipes.Frame.{Frame, ok, ◌>>=◌}
use substrate_recipes.Frame.Storage.{insert}
use substrate_recipes.Frame.Currency.{done, Attempt-cases, Currency}
use substrate_recipes.Crowdfund.{
  Config, State, FundInfo, Event, fund_account_id, id_from_index, withdraw, contribution_kill,
  contribution_get,
}
use substrate_recipes.Crowdfund.ChildTrie.{
  kill-IsKeyed, get_or_default-kill, total-kill, get_or_default-le-total, get_or_default,
}
use substrate_recipes.Crowdfund.Runtime.{IsRuntime, pots_differ}
use substrate_recipes.Crowdfund.Sound.{IsSound, Touches, Touches-IsSound}

module _ {Bank : Type 0} {config : Config} {c : Currency Bank} (runtime : IsRuntime config c) where
  -- The state after a contributor has been paid back.
  withdraw-Touches :
      (index who imbalance : ℕ) (fund : FundInfo) (s : State Bank) (b : Bank) (events : List Event)
      → index < 2 ^ 32
      → ((i : ℕ) → who ≢ fund_account_id config i)
      → IsSound config c s
      → s.funds index ≡ some fund
      → let balance = contribution_get config index who s in
        c.withdraw (fund_account_id config index) balance s.bank ≡ done (imbalance, b)
        → let fund' : FundInfo = record fund { raised = saturating_sub fund.raised balance } in
          let s' : State Bank = record s { bank = c.resolve_into_existing who imbalance b } in
          Touches config c index s (record (contribution_kill config index who s') {
            funds = insert index fund' s.funds;
            events = events;
          })
  unfolding contribution_kill contribution_get
  withdraw-Touches index who imbalance fund s b events small outside h found w =
      let f = h.stored index fund small found in
      let trie = s.tries (id_from_index config index) in
      let balance = get_or_default who trie in
      let pot = fund_account_id config index in
      let (exact, issuance, left, same) =
        runtime.currency_laws.withdraw_lem pot balance imbalance s.bank b w in
      let (_, same', issuance') =
        runtime.currency_laws.resolve_into_existing_lem who imbalance b
          (omega (arith, exact, issuance, h.issued)) in
      let most = get_or_default-le-total who trie in
      let kept = left (omega (arith, f.covered, f.minimal, f.counted, most)) in
      let out = same' pot (λ p. outside index (sym p)) in
      record {
        in_limit = omega (arith, exact, issuance, issuance', h.issued);
        born = f.listed;
        grown = omega arith;
        funds_same = λ i ne. ground arith;
        tries_same = λ i ne. ground arith;
        pots_kept = λ i g hi ne _. omega (
          arith,
          same' (fund_account_id config i) (λ p. outside i (sym p)),
          same (fund_account_id config i) (pots_differ runtime i index hi small ne),
        );
        own = λ g e.
            ground (arith, f, kept, out, most, total-kill who trie, kill-IsKeyed who trie f.keyed);
      }

module _ {Bank : Type 0} {config : Config} {c : Currency Bank} (runtime : IsRuntime config c)
    {Origin : Type 0} (frame : Frame Origin) where
  -- A withdrawal by an outsider keeps the storage sound, whether it succeeds or fails.
  pub withdraw-IsSound :
      (now : ℕ) (origin : Origin) (index : ℕ) (s : State Bank)
      → index < 2 ^ 32
      → ((i who : ℕ) → frame.ensure_signed origin ≡ some who → who ≢ fund_account_id config i)
      → IsSound config c s
      → IsSound config c (withdraw config frame c now origin index s).1
  unfolding withdraw contribution_kill contribution_get
  withdraw-IsSound now origin index s small outside h =
      elim (Option-cases (frame.ensure_signed origin)) [
        | inl e ↦ rw e h
        | inr (who, e) ↦ rw e (elim (Option-cases (s.funds index)) [
          | inl missing ↦ rw missing h
          | inr (fund, found) ↦ rw found (elim (Bool-cases (ltb fund.end now)) [
            | inr active ↦ rw active h
            | inl over ↦ rw over (elim (Bool-cases (ltb 0 (contribution_get config index who s))) [
              | inr nothing ↦ rw nothing h
              | inl some_part ↦
                  rw some_part
                    (elim (Attempt-cases (
                      c.withdraw (fund_account_id config index)
                        (contribution_get config index who s) s.bank)) [
                          | inl (_, no_funds) ↦ rw (no_funds, ◌>>=◌) (rw no_funds h)
                          | inr ((imbalance, b), w) ↦
                              rw (w, ◌>>=◌)
                                (rw w (
                                  Touches-IsSound runtime index s _ small
                                    (withdraw-Touches runtime index who imbalance fund s b _ small
                                      (λ i. outside i who e) h found w)
                                    h))
                        ])
            ])
          ])
        ])
      ]

  -- In a runtime that meets IsRuntime (the deposit covers the minimum balance, pots and hashes of
  -- different funds differ, nothing locks a pot, and the currency is as documented), and in a sound
  -- storage, a contributor that is alive, owns no pot and has a contribution to a stored fund that
  -- has ended gets it back whole, whether or not the fund reached its goal: the call returns ok,
  -- the contributor receives and the pot loses exactly the contribution, what was raised is reduced
  -- by it, and nothing is left to withdraw.
  pub withdraw_succeeds :
      (now : ℕ) (origin : Origin) (index who : ℕ) (fund : FundInfo) (s : State Bank)
      → index < 2 ^ 32
      → ((i who : ℕ) → frame.ensure_signed origin ≡ some who → who ≢ fund_account_id config i)
      → IsSound config c s
      → frame.ensure_signed origin ≡ some who
      → s.funds index ≡ some fund
      → fund.end < now
      → 0 < contribution_get config index who s
      → c.minimum_balance ≤ c.free_balance who s.bank
      → let (r, s') = withdraw config frame c now origin index s in
        let contribution = contribution_get config index who s in
        (r ≡ ok tt)
        × (c.free_balance who s'.bank ≡ c.free_balance who s.bank + contribution)
        × (c.free_balance (fund_account_id config index) s'.bank + contribution
            ≡ c.free_balance (fund_account_id config index) s.bank)
        × (s'.funds index ≡ some (record fund { raised = fund.raised - contribution }))
        × (contribution ≤ fund.raised)
        × (contribution_get config index who s' ≡ 0)
  unfolding withdraw contribution_get contribution_kill
  withdraw_succeeds now origin index who fund s small outside h e found over some_part alive =
      let f = h.stored index fund small found in
      let trie = s.tries (id_from_index config index) in
      let balance = get_or_default who trie in
      let pot = fund_account_id config index in
      let most = get_or_default-le-total who trie in
      let ((i, b), w) =
        runtime.pot_withdraws index balance s.bank (omega (arith, f.covered, f.counted, most)) in
      let (exact, issuance, left, same) =
        runtime.currency_laws.withdraw_lem pot balance i s.bank b w in
      let (credit, same', _) =
        runtime.currency_laws.resolve_into_existing_lem who i b
          (omega (arith, exact, issuance, h.issued)) in
      let kept = left (omega (arith, f.covered, f.minimal, f.counted, most)) in
      rw (e, found, lt→ltb fund.end now over, lt→ltb 0 balance some_part)
        (rw (w, ◌>>=◌)
          (rw w (
            refl,
            omega (arith, credit, alive, same who (outside index who e)),
            omega (arith, kept, same' pot (λ p. outside index who e (sym p))),
            ground arith,
            omega (arith, f.counted, most),
            ground (arith, get_or_default-kill who trie f.keyed),
          )))
