-- ===== src/Prelude/Words.antt =====
-- Rust's unsigned integers of `bits` bits: a value is a natural number below `2 ^ bits`. The
-- methods are those that the pallets call: wrapping, checked and saturating arithmetic, and the
-- plain operators, whose overflow panics in a build with overflow checks and wraps in one without.
use Prim.Native.Nat.{ℕ, ◌+◌, ◌-◌, ◌*◌, ◌%◌, ◌^◌}
use mathlib.Core.Bool.{Bool}
use mathlib.Core.Option.{Option, none, some}
use substrate_recipes.Prelude.Tests.{ltb, if◌then◌else◌}

module _ (bits : ℕ) where
  abbrev pub wrapping_add : ℕ → ℕ → ℕ
  wrapping_add a b = (a + b) % 2 ^ bits

  abbrev pub wrapping_sub : ℕ → ℕ → ℕ
  wrapping_sub a b = (a + 2 ^ bits - b) % 2 ^ bits

  abbrev pub checked_add : ℕ → ℕ → Option ℕ
  checked_add a b = if ltb (a + b) (2 ^ bits) then some (a + b) else none

  abbrev pub saturating_add : ℕ → ℕ → ℕ
  saturating_add a b = if ltb (a + b) (2 ^ bits) then a + b else 2 ^ bits - 1

  abbrev pub saturating_mul : ℕ → ℕ → ℕ
  saturating_mul a b = if ltb (a * b) (2 ^ bits) then a * b else 2 ^ bits - 1

  -- `a + b`, `a * b` and `a - b` by the plain operators. `none` is the panic of a build with
  -- overflow checks.
  abbrev pub plain_add : Bool → ℕ → ℕ → Option ℕ
  plain_add overflow_checks a b =
      if ltb (a + b) (2 ^ bits)
      then some (a + b)
      else if overflow_checks
      then none
      else some ((a + b) % 2 ^ bits)

  abbrev pub plain_mul : Bool → ℕ → ℕ → Option ℕ
  plain_mul overflow_checks a b =
      if ltb (a * b) (2 ^ bits)
      then some (a * b)
      else if overflow_checks
      then none
      else some ((a * b) % 2 ^ bits)

  abbrev pub plain_sub : Bool → ℕ → ℕ → Option ℕ
  plain_sub overflow_checks a b =
      if ltb a b
      then if overflow_checks then none else some ((a + 2 ^ bits - b) % 2 ^ bits)
      else some (a - b)

-- The methods that need no width.
abbrev pub checked_sub : ℕ → ℕ → Option ℕ
checked_sub a b = if ltb a b then none else some (a - b)

abbrev pub saturating_sub : ℕ → ℕ → ℕ
saturating_sub a b = a - b
