-- ===== src/OcwRuntime/Signed.antt =====
-- What a transaction that the runtime signs is to the chain that receives it.
use substrate_recipes.Prelude.{
  ℕ, ◌-◌, ◌^◌, ◌≤◌, ◌<◌, ◌≡◌, refl, some, arith, dec_lt, sym, ◌∙◌, Option-cases, inl, inr, ap,
  unwrap_or,
}
use native.Mathlib.Nat.{pow-le-pow_right}
use substrate_recipes.OcwRuntime.{
  Primitives, SignedExtra, SignaturePayload, block_hash_count, ◌>>=◌, extra_at, send,
  create_transaction,
}

next_power : (k : ℕ) → 2400 ≤ 2 ^ k → 4096 ≤ 2 ^ k
next_power k h = elim (dec_lt k 12) [
  | yes small ↦
      let below : 2 ^ k ≤ 2 ^ 11 =
        pow-le-pow_right {n = 2} (omega arith) {i = k} {j = 11} (omega (arith, small)) in
      omega (arith, h, below)
  | no large ↦ pow-le-pow_right {n = 2} (omega arith) {i = 12} {j = k} (omega (arith, large))
]

module _ {Era Call Payload Additional : Type 0}
    (prims : Primitives Era Call Payload Additional (SignedExtra Era)) where
  open prims use {mortal, new_payload, deconstruct, encoded, sign}

  -- What the crate promises: a payload holds the call and the extension that it was made of.
  pub record AreSound : Type 0 where
    pub deconstruct-new_payload :
        (call : Call) (extra : SignedExtra Era) (raw : Payload)
        → new_payload call extra ≡ some raw
        → (additional : Additional) × (deconstruct raw ≡ (call, extra, additional))

  -- An era as the crate makes it lives a power of two of blocks, and as long as is asked for.
  pub record AreEras (life : Era → ℕ) : Type 0 where
    pub exponent : ℕ → ℕ → ℕ
    pub life_lem : (period current : ℕ) → life (mortal period current) ≡ 2 ^ exponent period current
    pub long_enough : (period current : ℕ) → period ≤ 2 ^ 16 → period ≤ life (mortal period current)

  module _ (sound : AreSound) where
    -- Whatever the runtime signs has the extension that it made.
    extra-create_transaction :
        (block_number public account index : ℕ) (call call' : Call) (given : SignaturePayload Era)
        → create_transaction prims block_number call public account index ≡ some (call', given)
        → given.extra ≡ extra_at prims block_number index
    unfolding create_transaction
    extra-create_transaction block_number public account index call call' given e =
        let extra = extra_at prims block_number index in
        elim (Option-cases (new_payload call extra)) [
          | inl failed ↦ ground (arith, failed)
          | inr (raw, made) ↦ elim (Option-cases (sign (encoded raw) public)) [
            | inl failed ↦ ground (arith, made, failed)
            | inr (signature, signed) ↦
                let (additional, parts) = sound.deconstruct-new_payload call extra raw made in
                let out : some (send prims account signature (call, extra, additional))
                    ≡ some (call', given) =
                  sym (rw (made, ◌>>=◌, signed, ◌>>=◌, parts) refl) ∙ e in
                sym (
                  ap (λ o. (unwrap_or {A = Call × SignaturePayload Era} o (call', given)).1.extra)
                    out)
          ]
        ]

    -- With payloads that hold what they were made of, and eras that live a power of two of blocks, and
    -- as long as is asked for up to 2^16: whatever the runtime signs has an era of more blocks than
    -- those whose hashes it keeps, of at least 4096.
    pub outlives-create_transaction :
        {life : Era → ℕ} (eras : AreEras life) (block_number public account index : ℕ)
        (call call' : Call) (given : SignaturePayload Era)
        → create_transaction prims block_number call public account index ≡ some (call', given)
        → (block_hash_count < life given.extra.check_era) × (4096 ≤ life given.extra.check_era)
    outlives-create_transaction eras block_number public account index call call' given e =
        let current = block_number - 1 in
        let long = eras.long_enough block_hash_count current (omega arith) in
        let same = eras.life_lem block_hash_count current in
        let lives =
          next_power (eras.exponent block_hash_count current) (omega (arith, same, long)) in
        rw (extra-create_transaction block_number public account index call call' given e)
          (rw same (omega (arith, lives), lives))
