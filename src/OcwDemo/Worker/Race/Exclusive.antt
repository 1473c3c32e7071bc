-- ===== src/OcwDemo/Worker/Race/Exclusive.antt =====
-- Which runs of the worker fetch at the same time.
use substrate_recipes.Prelude.{
  ℕ, ◌+◌, ◌≤◌, ◌≡◌, ◌≢◌, refl, sym, ap, ◌∙◌, Bool, true, false, Option, none, some, arith, ◌==◌,
  Bool-cases, ◌⊎◌, inl, inr,
}
use substrate_recipes.Frame.{Outcome, ok, err, panic}
use substrate_recipes.OcwDemo.Worker.{GithubInfo, Error, Env, Local, fetch_n_parse}
use substrate_recipes.OcwDemo.Worker.Race.{
  Clock, Lockable, IsBlockAndTime, Phase, waiting, missed, holding, finished, System, set_phase,
  looked, look, release, fetch, is_free, locked, try_lock,
}

-- At most four seconds, or at most three blocks, after a start.
abbrev pub IsInTime : Clock → Clock → Type 0
IsInTime start now = (now.time ≤ start.time + 4000) ⊎ (now.block ≤ start.block + 3)

module _ {Deadline : Type 0} (lockable : Lockable Deadline) (envs : ℕ → Env) where
  -- One step of one run; or time passes.
  pub data Step (s : System Deadline) : System Deadline → Type 0 where
    looks : (i : ℕ) → s.phases i ≡ waiting → Step s (look i s)
    tries : (i : ℕ) → s.phases i ≡ missed → Step s (try_lock lockable i s)
    fetches : (i : ℕ) (start : Clock) → s.phases i ≡ holding start → Step s (fetch (envs i) i s)
    passes : (now : Clock) → Step s (record s { clock = now })

  pub data Reach (s : System Deadline) : System Deadline → Type 0 where
    here : Reach s s
    next : {t u : System Deadline} → Reach s t → Step t u → Reach s u

-- Nobody is in the middle of a fetch for more than four seconds and more than three blocks.
unfoldable pub IsPrompt : {Deadline : Type 0} → System Deadline → Type 0
IsPrompt s = (i : ℕ) (start : Clock) → s.phases i ≡ holding start → IsInTime start s.clock

-- The states that are passed through are prompt.
unfoldable pub AllPrompt :
    {Deadline : Type 0} {lockable : Lockable Deadline} {envs : ℕ → Env} {s t : System Deadline}
    → Reach lockable envs s t
    → Type 0
AllPrompt here = Unit
AllPrompt (next {t} {u} r st) = AllPrompt r × IsPrompt u

module _ {Deadline : Type 0} (lockable : Lockable Deadline) where
  -- A run in the middle of a fetch is in time, the stored lock is its own, and it is the only one.
  record IsGuarded (s : System Deadline) : Type 0 where
    in_time : (i : ℕ) (start : Clock) → s.phases i ≡ holding start → IsInTime start s.clock
    stored :
        (i : ℕ) (start : Clock)
        → s.phases i ≡ holding start
        → s.lock ≡ some (lockable.deadline 3 4000 start)
    alone :
        (i j : ℕ) (start start' : Clock)
        → s.phases i ≡ holding start
        → s.phases j ≡ holding start'
        → i ≡ j

  IsIdle : System Deadline → Type 0
  IsIdle s = (i : ℕ) (start : Clock) → s.phases i ≢ holding start

  set_phase-IsGuarded :
      (i : ℕ) (p : Phase) (s : System Deadline)
      → ((start : Clock) → p ≢ holding start)
      → IsGuarded s
      → IsGuarded (set_phase i p s)
  set_phase-IsGuarded i p s free h = record {
    in_time = λ j start e. ground (arith, h.in_time j start, free start);
    stored = λ j start e. ground (arith, h.stored j start, free start);
    alone =
        λ j k start start' e e'. ground (arith, h.alone j k start start', free start, free start');
  }

  idle-IsGuarded : (s : System Deadline) → IsIdle s → IsGuarded s
  unfolding IsIdle
  idle-IsGuarded s idle = record {
    in_time = λ i start e. absurd (idle i start e);
    stored = λ i start e. absurd (idle i start e);
    alone = λ i j start start' e e'. absurd (idle i start e);
  }

  -- Whoever lets go leaves nobody in a fetch.
  released-IsIdle :
      (i : ℕ) (start : Clock) (r : Outcome Error (Unit {0})) (lock : Option Deadline) (l : Local)
      (s : System Deadline)
      → s.phases i ≡ holding start
      → IsGuarded s
      → IsIdle (record (set_phase i (finished r) s) { lock = lock; local = l })
  unfolding IsIdle
  released-IsIdle i start r lock l s e h j start' e' = ground (arith, h.alone i j start start')

  release-IsGuarded :
      (i : ℕ) (start : Clock) (r : Outcome Error GithubInfo) (l : Local) (s : System Deadline)
      → s.phases i ≡ holding start
      → IsGuarded s
      → IsGuarded (release i r l s)
  release-IsGuarded i start (ok info) l s e h =
      idle-IsGuarded _
        (released-IsIdle i start (ok tt) none (record l { gh_info = some (some info) }) s e h)
  release-IsGuarded i start (err x) l s e h =
      idle-IsGuarded _ (released-IsIdle i start (err x) none l s e h)
  release-IsGuarded i start panic l s e h =
      idle-IsGuarded _ (released-IsIdle i start panic none l s e h)

  looked-IsGuarded :
      (i : ℕ) (o : Option (Option GithubInfo)) (s : System Deadline)
      → IsGuarded s
      → IsGuarded (looked i o s)
  looked-IsGuarded i (some (some info)) s h =
      set_phase-IsGuarded i (finished (ok tt)) s (λ start e. ground arith) h
  looked-IsGuarded i (some none) s h = set_phase-IsGuarded i missed s (λ start e. ground arith) h
  looked-IsGuarded i none s h = set_phase-IsGuarded i missed s (λ start e. ground arith) h

  -- The only fetch after a lock was taken with nobody in a fetch is the one that just began.
  only_new :
      (i j : ℕ) (start : Clock) (s : System Deadline)
      → IsIdle s
      → (locked lockable i true s).phases j ≡ holding start
      → (j ≡ i) × (start ≡ s.clock)
  unfolding IsIdle
  only_new i j start s idle e = elim (Bool-cases (j == i)) [
    | inl same ↦ ground (arith, same)
    | inr other ↦ absurd (ground (arith, other, idle j start))
  ]

  module _ (laws : IsBlockAndTime lockable) where
    -- A lock that is free is nobody's who is in a fetch.
    free-IsIdle :
        (s : System Deadline) → is_free lockable s.lock s.clock ≡ true → IsGuarded s → IsIdle s
    unfolding IsIdle
    free-IsIdle s free h i start e =
        let own = h.stored i start e in
        let expired : lockable.has_expired (lockable.deadline 3 4000 start) s.clock ≡ true =
          sym (ap (λ o. is_free lockable o s.clock) own) ∙ free in
        let (blocks, millis) = laws.expired_both 3 4000 start s.clock expired in
        elim (h.in_time i start e) [
          | inl early ↦ omega (arith, early, millis)
          | inr early ↦ omega (arith, early, blocks)
        ]

    locked-IsGuarded :
        (i : ℕ) (b : Bool) (s : System Deadline)
        → is_free lockable s.lock s.clock ≡ b
        → IsGuarded s
        → IsGuarded (locked lockable i b s)
    unfolding IsIdle
    locked-IsGuarded i false s e h =
        set_phase-IsGuarded i (finished (ok tt)) s (λ start e'. ground arith) h
    locked-IsGuarded i true s e h =
        let idle = free-IsIdle s e h in
        record {
          in_time =
              λ j start e'. inl (omega (arith, ap (λ c. c.time) (only_new i j start s idle e').1));
          stored = λ j start e'.
              ap (λ c. some (lockable.deadline 3 4000 c)) (sym (only_new i j start s idle e').1);
          alone = λ j k start start' e' e''.
              (only_new i j start s idle e').0 ∙ sym (only_new i k start' s idle e'').0;
        }

    Step-IsGuarded :
        (envs : ℕ → Env) {s t : System Deadline}
        → Step lockable envs s t
        → IsPrompt t
        → IsGuarded s
        → IsGuarded t
    unfolding look try_lock fetch IsPrompt
    Step-IsGuarded envs {s} (looks i w) prompt h = looked-IsGuarded i s.local.gh_info s h
    Step-IsGuarded envs {s} (tries i m) prompt h =
        locked-IsGuarded i (is_free lockable s.lock s.clock) s refl h
    Step-IsGuarded envs {s} (fetches i start held) prompt h =
        let (r, l) = fetch_n_parse (envs i) s.local in release-IsGuarded i start r l s held h
    Step-IsGuarded envs {s} (passes now) prompt h = record {
      in_time = prompt;
      stored = h.stored;
      alone = h.alone;
    }

    Reach-IsGuarded :
        (envs : ℕ → Env) {s t : System Deadline} (r : Reach lockable envs s t)
        → AllPrompt r
        → IsGuarded s
        → IsGuarded t
    unfolding AllPrompt
    Reach-IsGuarded envs here prompt h = h
    Reach-IsGuarded envs (next r st) (before, prompt) h =
        Step-IsGuarded envs st prompt (Reach-IsGuarded envs r before h)

-- With a lock that expires as documented, from a state in which no run has begun, whatever order the
-- steps of any number of runs come in, however time passes between them, and whatever each run finds
-- around it: as long as no run is ever in the middle of a fetch for more than four seconds and more than
-- three blocks, while one is in the middle of a fetch no other is.
pub Reach-exclusive :
    {Deadline : Type 0} (lockable : Lockable Deadline) (envs : ℕ → Env)
    → IsBlockAndTime lockable
    → {s t : System Deadline} (r : Reach lockable envs s t) → AllPrompt r
    → ((i : ℕ) → s.phases i ≡ waiting)
    → (i j : ℕ) (start start' : Clock) → i ≢ j
    → t.phases i ≡ holding start
    → t.phases j ≢ holding start'
unfolding IsIdle
Reach-exclusive lockable envs laws {s} {t} r prompt idle i j start start' differ hi hj =
    let nobody : IsIdle lockable s = λ k c e. ground (arith, idle k) in
    let guarded = Reach-IsGuarded lockable laws envs r prompt (idle-IsGuarded lockable s nobody) in
    differ (guarded.alone i j start start' hi hj)
