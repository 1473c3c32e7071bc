-- ===== src/Weights/Loops.antt =====
-- The loops of the weighed calls end with the sums that they stand for.
use substrate_recipes.Prelude.{
  ℕ, zero, suc, ◌+◌, ◌*◌, ◌^◌, ◌<◌, ◌≡◌, Bool, some, arith, ◌==◌, if◌then◌else◌, lt→ltb, ◌∙◌, ap,
  Bool-cases, inl, inr,
}
use substrate_recipes.Frame.{Outcome, modify, ok, err, other, panic, Call, ◌>>◌}
use substrate_recipes.Weights.{
  State, put, bump, times, add_twos, add_n, double, complex_calculations,
}

abbrev pub holding : ℕ → State
holding v = record { stored_value = v }

-- A call that goes through hands its state on.
then_lem : (m k : Call State ⊥ (Unit {0})) (s s' : State) → m s ≡ (ok tt, s') → (m >> k) s ≡ k s'
then_lem m k s s' e =
    ap
      (λ r. elim r.0 as (λ o. Outcome ⊥ (Unit {0}) × State) [
        | ok a ↦ k r.1
        | err x ↦ (err x, r.1)
        | panic ↦ (panic, r.1)
      ])
      e

module _ (overflow_checks : Bool) where
  bump_lem : (v : ℕ) → v + 1 < 2 ^ 32 → bump overflow_checks (holding v) ≡ (ok tt, holding (v + 1))
  bump_lem v h = rw (lt→ltb (v + 1) (2 ^ 32) h)

  times-bump :
      (n v : ℕ)
      → v + n < 2 ^ 32
      → times n (bump overflow_checks) (holding v) ≡ (ok tt, holding (v + n))
  unfolding times
  times-bump zero v h = ground arith
  times-bump (suc n) v h =
      then_lem (bump overflow_checks) (times n (bump overflow_checks)) (holding v) (holding (v + 1))
        (bump_lem v (omega arith))
      ∙ times-bump n (v + 1) (omega arith)
      ∙ ap (λ k. (ok tt, holding k)) (omega arith)

  times-times-bump :
      (m n v : ℕ)
      → v + m * n < 2 ^ 32
      → times m (times n (bump overflow_checks)) (holding v) ≡ (ok tt, holding (v + m * n))
  unfolding times
  times-times-bump zero n v h = ground arith
  times-times-bump (suc m) n v h =
      then_lem (times n (bump overflow_checks)) (times m (times n (bump overflow_checks)))
        (holding v) (holding (v + n)) (times-bump n v (grind arith))
      ∙ times-times-bump m n (v + n) (grind arith)
      ∙ ap (λ k. (ok tt, holding k)) (grind arith)

  add_twos_lem : (n p : ℕ) → p + 2 * n < 2 ^ 32 → add_twos overflow_checks n p ≡ some (p + 2 * n)
  unfolding add_twos
  add_twos_lem zero p h = ground arith
  add_twos_lem (suc n) p h =
      rw (lt→ltb (p + 2) (2 ^ 32) (omega arith), add_twos)
        (add_twos_lem n (p + 2) (omega arith) ∙ ap some (omega arith))

  -- In either build, `add_n` adds its argument to the stored value where the sum is a `u32`.
  pub add_n_lem :
      (n v : ℕ) → v + n < 2 ^ 32 → add_n overflow_checks n (holding v) ≡ (ok tt, holding (v + n))
  unfolding add_n
  add_n_lem n v h = times-bump n v h

  -- `double` doubles the stored value where it is told that value and twice it is a `u32`, and fails
  -- with no change where it is told another.
  pub double_lem :
      (told v : ℕ)
      → v + v < 2 ^ 32
      → double overflow_checks told (holding v) ≡ (
        if v == told then ok tt else err (other "Storage value did not match parameter"),
        holding (if v == told then 2 * v else v),
      )
  unfolding double
  double_lem told v h = elim (Bool-cases (v == told)) [
    | inl right ↦ rw right (times-bump v v h ∙ ap (λ k. (ok tt, holding k)) (omega arith))
    | inr wrong ↦ rw wrong
  ]

  -- Where the stored value plus the square of the first argument, and twice the second argument,
  -- are `u32`s, the long calculation returns ok and stores twice its second argument, in either
  -- build.
  pub complex_calculations_lem :
      (x y v : ℕ)
      → v + x * x < 2 ^ 32
      → 2 * y < 2 ^ 32
      → complex_calculations overflow_checks x y (holding v) ≡ (ok tt, holding (2 * y))
  unfolding complex_calculations
  complex_calculations_lem x y v h k = rw (add_twos_lem y 0 (omega arith)) (
      then_lem (times x (times x (bump overflow_checks))) (modify (put (0 + 2 * y))) (holding v)
        (holding (v + x * x)) (times-times-bump x x v h)
      ∙ ap (λ k. (ok tt, holding k)) (omega arith))
