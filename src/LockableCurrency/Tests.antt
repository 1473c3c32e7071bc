-- ===== src/LockableCurrency/Tests.antt =====
-- Two accounts and their locks, in a currency that keeps one amount for each account.
use substrate_recipes.Prelude.{
  ℕ, ◌≡◌, ◌≢◌, refl, none, some, List, [], ◌∷◌, arith, ◌==◌, if◌then◌else◌,
}
use Prim.Native.Nat.{max}
use substrate_recipes.Mock.{Origin, mock_frame}
use substrate_recipes.LockableCurrency.{
  State, Lockable, example_id, lock_capital, extend_lock, unlock_all,
}
use substrate_recipes.LockableCurrency.Locks.{
  IsLockable, PalletCall, lock, extend, unlock, run, lock_of, locked-run,
}

abbrev set_amount : ℕ → ℕ → (ℕ → ℕ) → ℕ → ℕ
set_amount who amount b j = if j == who then amount else b j

abbrev locks : Lockable (ℕ → ℕ)
locks = record {
  locked_under = λ id who b. b who;
  set_lock = λ id who amount b. set_amount who amount b;
  extend_lock = λ id who amount b. set_amount who (max (b who) amount) b;
  remove_lock = λ id who b. set_amount who 0 b;
}

set_own : (who amount : ℕ) (b : ℕ → ℕ) → set_amount who amount b who ≡ amount
set_own who amount b = ground arith

set_other : (who amount : ℕ) (b : ℕ → ℕ) (j : ℕ) → j ≢ who → set_amount who amount b j ≡ b j
set_other who amount b j h = ground arith

locks-IsLockable : IsLockable locks
locks-IsLockable = record {
  set_lock_lem = λ id who amount b h. (set_own who amount b, set_other who amount b);
  extend_lock_lem =
      λ id who amount b. (set_own who (max (b who) amount) b, set_other who (max (b who) amount) b);
  remove_lock_lem = λ id who b. (set_own who 0 b, set_other who 0 b);
}

abbrev genesis : State (ℕ → ℕ)
genesis = record { bank = λ j. 0; events = [] }

abbrev calls : List (Origin × PalletCall)
calls =
    (some 1, lock 30)
    ∷ (some 2, lock 5)
    ∷ (some 1, extend 20)
    ∷ (some 2, unlock)
    ∷ (none, lock 9)
    ∷ []

locked-run_example :
    locks.locked_under example_id 1 (run locks mock_frame calls genesis).bank
    ≡ lock_of locks mock_frame 1 calls 0
locked-run_example = locked-run locks mock_frame locks-IsLockable calls 1 genesis (ground arith)

-- An extension by less leaves the lock as it is.
thirty : (run locks mock_frame calls genesis).bank 1 ≡ 30
unfolding run lock_capital extend_lock unlock_all
thirty = refl
