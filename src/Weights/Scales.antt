-- ===== src/Weights/Scales.antt =====
-- The scales compute their formula, capped at the greatest `u32`.
use substrate_recipes.Prelude.{
  ℕ, zero, suc, ◌+◌, ◌-◌, ◌*◌, ◌^◌, ◌≤◌, ◌≡◌, refl, arith, ltb, min, Bool-cases, inl, inr, ◌∙◌, sym,
  subst,
}
use substrate_recipes.Prelude.Words.{saturating_add, saturating_mul}
use substrate_recipes.Weights.{linear, quadratic, weigh_linear, weigh_quadratic}

abbrev pub max_u32 : ℕ
max_u32 = 2 ^ 32 - 1

saturating_mul-min : (a b : ℕ) → saturating_mul 32 a b ≡ min (a * b) max_u32
saturating_mul-min a b = ground arith

saturating_add-min : (a b : ℕ) → saturating_add 32 a b ≡ min (a + b) max_u32
saturating_add-min a b = ground arith

pub weigh_linear_lem : (m x : ℕ) → weigh_linear (linear m) x ≡ min (m * x) max_u32
unfolding weigh_linear
weigh_linear_lem m x = ground arith

min_le : (a m : ℕ) → a ≤ m → min a m ≡ a
min_le a m h = ground arith

min_ge : (a m : ℕ) → m ≤ a → min a m ≡ m
min_ge a m h = ground arith

-- A cap before a multiplication does not show behind it.
cap_small : (m a b : ℕ) → a ≤ m → min (min a m * b) m ≡ min (a * b) m
cap_small m a b h = rw (min_le a m h) refl

mul_le : (m a b : ℕ) → m ≤ a → m ≤ a * (b + 1)
mul_le m a b h = grind arith

cap_large : (m a b : ℕ) → m ≤ a → min (min a m * (b + 1)) m ≡ min (a * (b + 1)) m
cap_large m a b h = rw (min_ge a m h) (
    min_ge (m * (b + 1)) m (mul_le m m b (omega arith))
    ∙ sym (min_ge (a * (b + 1)) m (mul_le m a b h)))

min-mul-min : (m a b : ℕ) → min (min a m * b) m ≡ min (a * b) m
min-mul-min m a zero = grind arith
min-mul-min m a (suc b) = elim (Bool-cases (ltb a m)) [
  | inl small ↦ cap_small m a (suc b) (ground arith)
  | inr large ↦
      subst (λ k. min (min a m * k) m ≡ min (a * k) m) (omega arith)
        (cap_large m a b (ground arith))
]

-- Nor does a cap of the summands.
min-add-min : (m p q : ℕ) → min (min p m + min q m) m ≡ min (p + q) m
min-add-min m p q = ground arith

-- The quadratic scale weighs `x * x * a + y * b + c`, capped at the greatest `u32`: a cap of an
-- intermediate result does not show.
pub weigh_quadratic_lem :
    (a b c x y : ℕ) → weigh_quadratic (quadratic a b c) x y ≡ min (x * x * a + y * b + c) max_u32
unfolding weigh_quadratic
weigh_quadratic_lem a b c x y =
    rw
      (
        saturating_mul-min x x,
        saturating_mul-min (min (x * x) max_u32) a,
        saturating_mul-min y b,
        min-mul-min max_u32 (x * x) a,
      )
      (ground (arith, min-add-min max_u32 (x * x * a) (y * b)))
