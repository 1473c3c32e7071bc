-- ===== src/OcwRuntime/Tests.antt =====
-- A runtime in which a payload is its call and extension, an encoding the call and the nonce, and a
-- signature the key. Calls are numbers.
use substrate_recipes.Prelude.{
  ℕ, ◌^◌, ◌≤◌, ◌<◌, refl, some, [], ◌∷◌, arith, ltb, if◌then◌else◌, Bool-cases, inl, inr,
}
use substrate_recipes.OcwRuntime.{
  Primitives, SignedExtra, SignaturePayload, extra_at, create_transaction,
}
use substrate_recipes.OcwRuntime.Signed.{AreSound, outlives-create_transaction, AreEras}

abbrev Extra : Type 0
Extra = SignedExtra (ℕ × ℕ)

abbrev size : ℕ → ℕ
size period = if ltb 4096 period then 16 else 12

abbrev prims : Primitives (ℕ × ℕ) ℕ (ℕ × Extra) (Unit {0}) Extra
prims = record {
  mortal = λ period current. (size period, current);
  new_payload = λ call extra. some (call, extra);
  deconstruct = λ p. (p.0, p.1, tt);
  encoded = λ p. p.0 ∷ p.1.check_nonce ∷ [];
  sign = λ message public. some public;
}

prims-AreSound : AreSound prims
prims-AreSound = record { deconstruct-new_payload = λ call extra raw e. (tt, cc) }

abbrev given : SignaturePayload (ℕ × ℕ)
given = record { address = 107; signature = 7; extra = extra_at prims 40 3 }

-- An era lives two to the power of its first part.
abbrev life : ℕ × ℕ → ℕ
life era = 2 ^ era.0

eras : AreEras prims life
eras = record {
  exponent = λ period current. size period;
  life_lem = λ period current. refl;
  long_enough = λ period current h. elim (Bool-cases (ltb 4096 period)) [
    | inl e ↦ rw e h
    | inr e ↦ rw e (ground (arith, e))
  ];
}

outlives-create_transaction_example : (2400 < 2 ^ size 2400) × (4096 ≤ 2 ^ size 2400)
unfolding create_transaction
outlives-create_transaction_example =
    outlives-create_transaction prims prims-AreSound eras 40 7 107 3 5 5 given refl
