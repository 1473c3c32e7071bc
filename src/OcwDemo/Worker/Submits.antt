-- ===== src/OcwDemo/Worker/Submits.antt =====
-- The transactions that the worker makes, and what the chain and a later run do with them.
use substrate_recipes.Prelude.{
  ℕ, ◌%◌, ◌^◌, ◌<◌, ◌≡◌, ◌≢◌, refl, true, some, List, [], ◌∷◌, ◌++◌, arith, ltb, ◌==◌,
  if◌then◌else◌, lt→ltb, Bool-cases, inl, inr,
}
use substrate_recipes.Frame.{ok, err, module_error}
use substrate_recipes.OcwDemo.{
  Codec, Payload, submit_number_signed_call, submit_number_unsigned_call,
  submit_number_unsigned_with_signed_payload_call, valid_tx, validate_unsigned,
}
use substrate_recipes.OcwDemo.Worker.{
  Env, Local, offchain_worker, transaction, offchain_signed_tx, offchain_unsigned_tx,
  offchain_unsigned_tx_signed_payload, unknown_offchain_mux, fetch_github_info, fetch_n_parse,
  fetch_from_remote,
}

module _ (env : Env) (l : Local) where
  mux-offchain_signed_tx :
      (n : ℕ) → (offchain_signed_tx env n l).0 ≢ err (module_error unknown_offchain_mux)
  unfolding offchain_signed_tx
  mux-offchain_signed_tx n = ground arith

  mux-offchain_unsigned_tx :
      (n : ℕ) → (offchain_unsigned_tx env n l).0 ≢ err (module_error unknown_offchain_mux)
  unfolding offchain_unsigned_tx
  mux-offchain_unsigned_tx n = ground arith

  mux-offchain_unsigned_tx_signed_payload :
      (n : ℕ)
      → (offchain_unsigned_tx_signed_payload env n l).0 ≢ err (module_error unknown_offchain_mux)
  unfolding offchain_unsigned_tx_signed_payload
  mux-offchain_unsigned_tx_signed_payload n = ground arith

  mux-fetch_github_info : (fetch_github_info env l).0 ≢ err (module_error unknown_offchain_mux)
  unfolding fetch_github_info fetch_n_parse fetch_from_remote
  mux-fetch_github_info = ground arith

  fetched_pool : (fetch_github_info env l).1.pool ≡ l.pool
  unfolding fetch_github_info fetch_n_parse fetch_from_remote
  fetched_pool = ground arith

module _ (codec : Codec) (env : Env) (usize_bits : ℕ) where
  -- Whatever a run finds around it, the error for an unknown kind of transaction is never the result.
  pub mux-offchain_worker :
      (block_number : ℕ) (index : List (List ℕ × List ℕ)) (l : Local)
      → (offchain_worker codec env usize_bits block_number index l).result
        ≢ err (module_error unknown_offchain_mux)
  unfolding offchain_worker transaction
  mux-offchain_worker block_number index l =
      let kind = (if ltb block_number (2 ^ usize_bits) then block_number else 0) % 4 in
      let small : kind < 4 = omega arith in
      elim (Bool-cases (kind == 1)) [
        | inl e ↦ rw e (mux-offchain_signed_tx env l block_number)
        | inr e ↦ elim (Bool-cases (kind == 2)) [
          | inl e' ↦ rw (e, e') (mux-offchain_unsigned_tx env l block_number)
          | inr e' ↦ elim (Bool-cases (kind == 3)) [
            | inl e'' ↦ rw (e, e', e'') (mux-offchain_unsigned_tx_signed_payload env l block_number)
            | inr e'' ↦ elim (Bool-cases (kind == 0)) [
              | inl zeroth ↦ rw (e, e', e'', zeroth) (mux-fetch_github_info env l)
              | inr other ↦ absurd (ground arith)
            ]
          ]
        ]
      ]

  pub submitted_signed :
      (who block_number : ℕ) (index : List (List ℕ × List ℕ)) (l : Local)
      → env.any_account ≡ some who
      → env.accepts (submit_number_signed_call block_number) ≡ true
      → block_number < 2 ^ 64
      → block_number < 2 ^ usize_bits
      → block_number % 4 ≡ 1
      → let report = offchain_worker codec env usize_bits block_number index l in
        (report.result ≡ ok tt)
        × (report.local.pool ≡ l.pool ++ (submit_number_signed_call block_number ∷ []))
  unfolding offchain_worker
  submitted_signed who block_number index l key accepted fits small kind =
      rw
        (
          lt→ltb block_number (2 ^ usize_bits) small,
          lt→ltb block_number (2 ^ 64) fits,
          kind,
          key,
          accepted,
        )
        (refl, refl)

  pub submitted_unsigned :
      (block_number : ℕ) (index : List (List ℕ × List ℕ)) (l : Local)
      → env.accepts (submit_number_unsigned_call block_number) ≡ true
      → block_number < 2 ^ 64
      → block_number < 2 ^ usize_bits
      → block_number % 4 ≡ 2
      → let report = offchain_worker codec env usize_bits block_number index l in
        (report.result ≡ ok tt)
        × (report.local.pool ≡ l.pool ++ (submit_number_unsigned_call block_number ∷ []))
  unfolding offchain_worker
  submitted_unsigned block_number index l accepted fits small kind =
      rw
        (
          lt→ltb block_number (2 ^ usize_bits) small,
          lt→ltb block_number (2 ^ 64) fits,
          kind,
          accepted,
        )
        (refl, refl)

  -- Every third block of four, the worker submits a payload that it signs: the run succeeds, the pool
  -- takes the call, and the chain finds it valid. The pool is to accept the call, and a signature of
  -- the keystore to verify.
  pub submitted_with_payload :
      (who signature block_number : ℕ) (index : List (List ℕ × List ℕ)) (l : Local)
      → let payload : Payload = record { number = block_number; public = who } in
        let call = submit_number_unsigned_with_signed_payload_call payload signature in
        env.any_account ≡ some who
        → env.sign payload ≡ some signature
        → ((p : Payload) (s : ℕ) → env.sign p ≡ some s → codec.verify p s ≡ true)
        → env.accepts call ≡ true
        → block_number < 2 ^ 64
        → block_number < 2 ^ usize_bits
        → block_number % 4 ≡ 3
        → let report = offchain_worker codec env usize_bits block_number index l in
          (report.result ≡ ok tt)
          × (report.local.pool ≡ l.pool ++ (call ∷ []))
          × (validate_unsigned codec call ≡ valid_tx "submit_number_unsigned_with_signed_payload")
  unfolding offchain_worker validate_unsigned
  submitted_with_payload who signature block_number index l key signs verifies accepted fits small
        kind =
      let payload : Payload = record { number = block_number; public = who } in
      let good : codec.verify payload signature ≡ true = verifies payload signature signs in
      rw
        (
          lt→ltb block_number (2 ^ usize_bits) small,
          lt→ltb block_number (2 ^ 64) fits,
          kind,
          key,
          signs,
          accepted,
          good,
        )
        (refl, refl, refl)

  -- A fetch submits nothing.
  pub pool-fetch_github_info :
      (block_number : ℕ) (index : List (List ℕ × List ℕ)) (l : Local)
      → block_number < 2 ^ usize_bits
      → block_number % 4 ≡ 0
      → (offchain_worker codec env usize_bits block_number index l).local.pool ≡ l.pool
  unfolding offchain_worker transaction
  pool-fetch_github_info block_number index l small kind =
      rw (lt→ltb block_number (2 ^ usize_bits) small, kind) (fetched_pool env l)
