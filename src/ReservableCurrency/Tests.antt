-- ===== src/ReservableCurrency/Tests.antt =====
-- The collateral of account 1, which has 50 reserved.
use substrate_recipes.Prelude.{
  ◌+◌, ◌-◌, ◌≡◌, refl, true, some, [], ◌∷◌, ◌++◌, min, ltb, if◌then◌else◌,
}
use substrate_recipes.Frame.Reservable.{Reservable, IsReservable}
use substrate_recipes.Frame.{ok, err, foreign}
use substrate_recipes.Frame.Currency.{failed}
use substrate_recipes.Mock.{mock_frame}
use substrate_recipes.Mock.Reserve.{Reserves, reserves, reserves_laws}
use substrate_recipes.ReservableCurrency.{State, unreserve_and_transfer, transfer_funds_event}
use substrate_recipes.ReservableCurrency.Collateral.{unreserve_and_transfer_lem, failure_unreserves}

abbrev held : State Reserves
held = record { bank = ((1, 100) ∷ [], (1, 50) ∷ []); events = [] }

-- A collateral of 80, of which 50 is there.
unreserve_and_transfer_lem_example :
    let (r, s') = unreserve_and_transfer mock_frame reserves 64 true 3 (some 9) 1 2 80 held in
    (r ≡ ok tt)
    × (s'.bank ≡ ((1, 100) ∷ (2, 50) ∷ [], (1, 0) ∷ []))
    × (s'.events ≡ [] ++ (transfer_funds_event 1 2 (min 80 50) 3 ∷ []))
unreserve_and_transfer_lem_example =
    unreserve_and_transfer_lem mock_frame reserves reserves_laws 64 true 3 (some 9) 9 1 2 80 held
      ((1, 100) ∷ (2, 50) ∷ [], (1, 0) ∷ []) refl refl

-- The same currency, where an account needs 10 to come into being.
abbrev strict : Reservable Reserves
strict = record reserves {
  currency = record (reserves.currency) {
    minimum_balance = 10;
    transfer = λ a z x b.
        if ltb (reserves.currency.free_balance z b + x) 10
        then failed 1
        else reserves.currency.transfer a z x b;
  };
}

strict_laws : IsReservable strict
strict_laws = record {
  reserve_lem = reserves_laws.reserve_lem;
  unreserve_lem = reserves_laws.unreserve_lem;
}

-- A collateral of 7, which is too little for a new account.
failure_unreserves_example :
    let (r, s') = unreserve_and_transfer mock_frame strict 64 true 3 (some 9) 1 2 7 held in
    (r ≡ err (foreign 1))
    × (strict.currency.free_balance 1 s'.bank ≡ 100 + min 7 50)
    × (strict.reserved_balance 1 s'.bank ≡ 50 - 7)
    × (s'.events ≡ [])
failure_unreserves_example =
    failure_unreserves mock_frame strict strict_laws 64 true 3 (some 9) 9 1 2 7 1 held refl refl
