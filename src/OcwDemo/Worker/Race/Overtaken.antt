-- ===== src/OcwDemo/Worker/Race/Overtaken.antt =====
-- What becomes of a fetch that lasts longer than its lock (pallets/ocw-demo/src/lib.rs): the body of the
-- response is read with no deadline.
use substrate_recipes.Prelude.{ℕ, ◌+◌, ◌<◌, ◌≡◌, ◌≢◌, refl, ap, ◌∙◌, true, none, some, arith}
use substrate_recipes.Frame.{Outcome, ok, err, panic}
use substrate_recipes.OcwDemo.Worker.{GithubInfo, Error, Env, Local, fetch_n_parse}
use substrate_recipes.OcwDemo.Worker.Race.{
  Clock, Lockable, IsBlockAndTime, holding, System, release, fetch, is_free, locked, try_lock,
}

-- Who ends a fetch leaves no lock, and other runs where they were.
release_lem :
    {Deadline : Type 0} (i j : ℕ) (start : Clock) (r : Outcome Error GithubInfo) (l : Local)
    (s : System Deadline)
    → i ≢ j
    → s.phases j ≡ holding start
    → ((release i r l s).lock ≡ none) × ((release i r l s).phases j ≡ holding start)
release_lem i j start (ok info) l s differ held = (refl, ground (arith, held))
release_lem i j start (err e) l s differ held = (refl, ground (arith, held))
release_lem i j start panic l s differ held = (refl, ground (arith, held))

-- A lock that has expired can be had.
gets_lock :
    {Deadline : Type 0} (lockable : Lockable Deadline) (j : ℕ) (d : Deadline) (s : System Deadline)
    → s.lock ≡ some d
    → lockable.has_expired d s.clock ≡ true
    → try_lock lockable j s ≡ locked lockable j true s
unfolding try_lock
gets_lock lockable j d s own expired =
    ap (λ b. locked lockable j b s) (ap (λ o. is_free lockable o s.clock) own ∙ expired)

-- With a lock that expires as documented, and a run in the middle of a fetch that the stored lock is of:
-- once more than four seconds and more than three blocks have passed since it began, any other run
-- that has found nothing stored gets the lock, and both are in the middle of a fetch; and when the
-- fetch of the first is over there is no lock any more, while the other is still in the middle of its own.
pub overtaken :
    {Deadline : Type 0} (lockable : Lockable Deadline)
    → IsBlockAndTime lockable
    → (env : Env) (i j : ℕ) (start : Clock) (s : System Deadline) → i ≢ j
    → s.phases i ≡ holding start
    → s.lock ≡ some (lockable.deadline 3 4000 start)
    → start.block + 3 < s.clock.block
    → start.time + 4000 < s.clock.time
    → let t = try_lock lockable j s in
      let u = fetch env i t in
      (t.phases i ≡ holding start)
      × (t.phases j ≡ holding s.clock)
      × (u.lock ≡ none)
      × (u.phases j ≡ holding s.clock)
unfolding fetch
overtaken lockable laws env i j start s differ held own blocks millis =
    let expired = laws.both_expired 3 4000 start s.clock blocks millis in
    let t = locked lockable j true s in
    let (r, l) = fetch_n_parse env s.local in
    let taken : t.phases j ≡ holding s.clock = ground arith in
    let kept : t.phases i ≡ holding start = ground (arith, held, differ) in
    let (none_left, still) = release_lem i j s.clock r l t differ taken in
    rw (gets_lock lockable j (lockable.deadline 3 4000 start) s own expired)
      (kept, taken, none_left, still)
