-- ===== src/Crowdfund/Close.antt =====
-- What a payout does to the pots, and `dissolve`, which keeps the storage sound.
use substrate_recipes.Prelude.{
  ℕ, ◌+◌, ◌^◌, ◌≤◌, ◌<◌, ◌≡◌, ◌≢◌, List, some, arith, sym, Bool-cases, Option-cases, ℕ_discrete,
  inl, inr, leb, subst,
}
use substrate_recipes.Prelude.Words.{plain_add}
use substrate_recipes.Frame.{Frame, ◌>>=◌}
use substrate_recipes.Frame.Storage.{remove}
use substrate_recipes.Frame.Currency.{done, Attempt-cases, Currency}
use substrate_recipes.Crowdfund.{
  Config, State, FundInfo, Event, fund_account_id, dissolve, crowdfund_kill,
}
use substrate_recipes.Crowdfund.Runtime.{IsRuntime, pots_differ}
use substrate_recipes.Crowdfund.Sound.{IsSound, Touches, Touches-IsSound}

module _ {Bank : Type 0} {config : Config} {c : Currency Bank} (runtime : IsRuntime config c) where
  -- A credit takes nothing from an account that is alive.
  pub credit-le :
      (p a x : ℕ) (b : Bank)
      → c.total_issuance b + x < c.balance_limit
      → c.minimum_balance ≤ c.free_balance p b
      → c.free_balance p b ≤ c.free_balance p (c.resolve_creating a x b)
  credit-le p a x b fits alive =
      let (credit, same, issuance) = runtime.currency_laws.resolve_creating_lem a x b fits in
      elim (ℕ_discrete p a) [
        | yes e ↦
            subst (λ k. c.free_balance k b ≤ c.free_balance k (c.resolve_creating a x b)) (sym e)
              (let alive' : c.minimum_balance ≤ c.free_balance a b =
                  subst (λ k. c.minimum_balance ≤ c.free_balance k b) e alive in
                omega (arith, credit))
        | no ne ↦ omega (arith, same p ne)
      ]

  -- A fund is closed: its pot has paid out `amount` to `who`, and its record and trie are gone.
  pub closed-Touches :
      (index : ℕ) (fund : FundInfo) (s : State Bank) (b : Bank) (events : List Event)
      → index < 2 ^ 32
      → IsSound config c s
      → s.funds index ≡ some fund
      → c.total_issuance b < c.balance_limit
      → ((i : ℕ)
          → i ≢ index
          → i < 2 ^ 32
          → c.minimum_balance ≤ c.free_balance (fund_account_id config i) s.bank
          → c.free_balance (fund_account_id config i) s.bank
            ≤ c.free_balance (fund_account_id config i) b)
      → Touches config c index s (
          crowdfund_kill config index
            (record s { funds = remove index s.funds; bank = b; events = events }))
  unfolding crowdfund_kill
  closed-Touches index fund s b events small h found in_limit kept =
      let f = h.stored index fund small found in
      record {
        in_limit = in_limit;
        born = f.listed;
        grown = omega arith;
        funds_same = λ i ne. ground arith;
        tries_same = λ i ne. ground arith;
        pots_kept = λ i g hi ne sound. kept i ne hi (omega (arith, sound.minimal, sound.covered));
        own = λ g e. ground arith;
      }

  -- A pot pays `amount` to `who`: every other pot that is alive keeps what it has.
  pub paid_out_keeps :
      (index who amount imbalance i : ℕ) (b b' : Bank)
      → index < 2 ^ 32
      → i < 2 ^ 32
      → i ≢ index
      → c.withdraw (fund_account_id config index) amount b ≡ done (imbalance, b')
      → c.total_issuance b < c.balance_limit
      → c.minimum_balance ≤ c.free_balance (fund_account_id config i) b
      → c.free_balance (fund_account_id config i) b
        ≤ c.free_balance (fund_account_id config i) (c.resolve_creating who imbalance b')
  paid_out_keeps index who amount imbalance i b b' small hi ne w issued alive =
      let (exact, issuance, left, same) =
        runtime.currency_laws.withdraw_lem (fund_account_id config index) amount imbalance b b' w in
      let kept = same (fund_account_id config i) (pots_differ runtime i index hi small ne) in
      omega (
        arith,
        credit-le (fund_account_id config i) who imbalance b'
            (omega (arith, exact, issuance, issued)) (omega (arith, kept, alive)),
        kept,
      )

  -- A payout leaves the issuance a balance.
  pub paid_out_issued :
      (a who amount imbalance : ℕ) (b b' : Bank)
      → c.withdraw a amount b ≡ done (imbalance, b')
      → c.total_issuance b < c.balance_limit
      → (c.total_issuance b' + imbalance < c.balance_limit)
        × (c.total_issuance (c.resolve_creating who imbalance b') < c.balance_limit)
  paid_out_issued a who amount imbalance b b' w issued =
      let (exact, issuance, left, same) =
        runtime.currency_laws.withdraw_lem a amount imbalance b b' w in
      let fits : c.total_issuance b' + imbalance < c.balance_limit =
        omega (arith, exact, issuance) in
      let (_, _, issuance') = runtime.currency_laws.resolve_creating_lem who imbalance b' fits in
      (fits, omega (arith, issuance', fits))

  -- After a payout that leaves it alive, the pot still has the rest.
  pub paid_out_rest :
      (index who amount imbalance : ℕ) (b b' : Bank)
      → c.withdraw (fund_account_id config index) amount b ≡ done (imbalance, b')
      → c.total_issuance b < c.balance_limit
      → c.minimum_balance + amount ≤ c.free_balance (fund_account_id config index) b
      → c.free_balance (fund_account_id config index) b
        ≤ c.free_balance (fund_account_id config index) (c.resolve_creating who imbalance b')
          + amount
  paid_out_rest index who amount imbalance b b' w issued alive =
      let (exact, issuance, left, same) =
        runtime.currency_laws.withdraw_lem (fund_account_id config index) amount imbalance b b' w in
      let rest = left alive in
      omega (
        arith,
        credit-le (fund_account_id config index) who imbalance b'
            (omega (arith, exact, issuance, issued)) (omega (arith, rest, alive)),
        rest,
      )

module _ {Bank : Type 0} {config : Config} {c : Currency Bank} (runtime : IsRuntime config c)
    {Origin : Type 0} (frame : Frame Origin) where
  -- A dissolution by anyone keeps the storage sound, whether it succeeds or fails.
  pub dissolve-IsSound :
      (now : ℕ) (origin : Origin) (index : ℕ) (s : State Bank)
      → index < 2 ^ 32
      → IsSound config c s
      → IsSound config c (dissolve config frame c now origin index s).1
  unfolding dissolve crowdfund_kill
  dissolve-IsSound now origin index s small h = elim (Option-cases (frame.ensure_signed origin)) [
    | inl e ↦ rw e h
    | inr (who, e) ↦ rw e (elim (Option-cases (s.funds index)) [
      | inl missing ↦ rw missing h
      | inr (fund, found) ↦
          rw found
            (elim (Option-cases (
              plain_add config.block_bits config.overflow_checks fund.end
                config.retirement_period)) [
                  | inl overflow ↦ rw overflow h
                  | inr (retired, sum) ↦ rw sum (elim (Bool-cases (leb retired now)) [
                    | inr early ↦ rw early h
                    | inl late ↦
                        rw late
                          (elim (Option-cases (
                            plain_add config.balance_bits config.overflow_checks fund.deposit
                              fund.raised)) [
                                | inl overflow ↦ rw overflow h
                                | inr (amount, sum') ↦
                                    rw sum'
                                      (elim (Attempt-cases
                                        (c.withdraw (fund_account_id config index) amount s.bank)) [
                                          | inl (_, no_funds) ↦ rw (no_funds, ◌>>=◌) (rw no_funds h)
                                          | inr ((imbalance, b), w) ↦
                                              rw (w, ◌>>=◌)
                                                (rw w (
                                                  Touches-IsSound runtime index s _ small
                                                    (closed-Touches runtime index fund s _ _ small h
                                                      found
                                                      (paid_out_issued runtime
                                                        (fund_account_id config index) who amount
                                                        imbalance s.bank b w h.issued).1
                                                      (λ i ne hi alive.
                                                        paid_out_keeps runtime index who amount
                                                          imbalance i s.bank b small hi ne w
                                                          h.issued alive))
                                                    h))
                                        ])
                              ])
                  ])
                ])
    ])
  ]
