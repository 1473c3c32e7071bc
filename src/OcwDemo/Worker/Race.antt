-- ===== src/OcwDemo/Worker/Race.antt =====
-- Runs of the worker at once: the fetch in its steps, which the steps of other runs come between. A run
-- looks for stored data, tries the lock, and with the lock fetches, stores and releases. The lock is
-- stored with the block and the time at which it expires, and time passes between the steps.
pub mod Exclusive
pub mod Overtaken
use substrate_recipes.Prelude.{
  ℕ, ◌+◌, ◌≤◌, ◌<◌, ◌≡◌, ◌≢◌, refl, sym, ap, ◌∙◌, Bool, true, false, Option, none, some, arith,
  ◌==◌, if◌then◌else◌, Bool-cases, Option-cases, ◌⊎◌, inl, inr,
}
use substrate_recipes.Frame.{Outcome, ok, err, panic}
use substrate_recipes.OcwDemo.Worker.{GithubInfo, Error, Env, Local, fetch_n_parse}

abbrev pub fetch_timeout_period : ℕ
fetch_timeout_period = 3000

abbrev pub lock_timeout_expiration : ℕ
lock_timeout_expiration = fetch_timeout_period + 1000

abbrev pub lock_block_expiration : ℕ
lock_block_expiration = 3

-- The number of the current block, and the time in milliseconds.
pub record Clock : Type 0 where
  pub block : ℕ
  pub time : ℕ

-- What `BlockAndTime` of `sp_runtime` gives: the deadline of a lock that is taken now, by its
-- expiration in blocks and in milliseconds, and whether a deadline has expired.
pub record Lockable (Deadline : Type 0) : Type 0 where
  pub deadline : ℕ → ℕ → Clock → Deadline
  pub has_expired : Deadline → Clock → Bool

-- As documented, a lock expires when both the block number and the time do.
pub record IsBlockAndTime {Deadline : Type 0} (lockable : Lockable Deadline) : Type 0 where
  pub expired_both :
      (blocks millis : ℕ) (start now : Clock)
      → lockable.has_expired (lockable.deadline blocks millis start) now ≡ true
      → (start.block + blocks < now.block) × (start.time + millis < now.time)
  pub both_expired :
      (blocks millis : ℕ) (start now : Clock)
      → start.block + blocks < now.block
      → start.time + millis < now.time
      → lockable.has_expired (lockable.deadline blocks millis start) now ≡ true

-- Where a run is: before its look at the storage, past it with nothing found, with the lock since some
-- time, or at its end.
pub data Phase : Type 0 where
  waiting missed : Phase
  holding : Clock → Phase
  finished : Outcome Error (Unit {0}) → Phase

-- The phase of each run, the deadline under `ocw-demo::lock`, the time, and the storage of the node.
pub record System (Deadline : Type 0) : Type 0 where
  pub phases : ℕ → Phase
  pub lock : Option Deadline
  pub clock : Clock
  pub local : Local

module _ {Deadline : Type 0} where
  abbrev set_phase : ℕ → Phase → System Deadline → System Deadline
  set_phase i p s = record s { phases = λ j. if j == i then p else s.phases j }

  -- The early return where data is stored.
  abbrev looked : ℕ → Option (Option GithubInfo) → System Deadline → System Deadline
  looked i (some (some info)) s = set_phase i (finished (ok tt)) s
  looked i (some none) s = set_phase i missed s
  looked i none s = set_phase i missed s

  unfoldable pub look : ℕ → System Deadline → System Deadline
  look i s = looked i s.local.gh_info s

  -- What a fetch leaves; the guard is dropped, which removes the stored lock.
  abbrev release : ℕ → Outcome Error GithubInfo → Local → System Deadline → System Deadline
  release i (ok info) l s = record (set_phase i (finished (ok tt)) s) {
    lock = none;
    local = record l { gh_info = some (some info) };
  }
  release i (err e) l s = record (set_phase i (finished (err e)) s) { lock = none; local = l }
  release i panic l s = record (set_phase i (finished panic) s) { lock = none; local = l }

  unfoldable pub fetch : Env → ℕ → System Deadline → System Deadline
  unfolding fetch_n_parse
  fetch env i s = let (r, l) = fetch_n_parse env s.local in release i r l s

  module _ (lockable : Lockable Deadline) where
    open lockable use {deadline, has_expired}

    -- There is no lock, or one that has expired.
    abbrev is_free : Option Deadline → Clock → Bool
    is_free none now = true
    is_free (some d) now = has_expired d now

    -- A run that does not get the lock is done.
    abbrev locked : ℕ → Bool → System Deadline → System Deadline
    locked i true s = record (set_phase i (holding s.clock) s) {
      lock = some (deadline lock_block_expiration lock_timeout_expiration s.clock);
    }
    locked i false s = set_phase i (finished (ok tt)) s

    unfoldable pub try_lock : ℕ → System Deadline → System Deadline
    try_lock i s = locked i (is_free s.lock s.clock) s
