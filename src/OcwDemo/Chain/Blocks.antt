-- ===== src/OcwDemo/Chain/Blocks.antt =====
-- The numbers on the chain, block after block.
use substrate_recipes.Prelude.{
  ℕ, zero, suc, ◌%◌, ◌^◌, ◌≤◌, ◌<◌, ◌≡◌, ◌≢◌, refl, sym, ap, subst, ◌∙◌, List, [], ◌∷◌, ◌++◌,
  length, arith, ◌==◌, Bool-cases, inl, inr,
}
use mathlib.Core.List.{append-nil}
use substrate_recipes.Frame.{Frame}
use substrate_recipes.OcwDemo.{
  State, Codec, Payload, PalletCall, submit_number_signed_call, submit_number_unsigned_call,
  submit_number_unsigned_with_signed_payload_call, validate_unsigned, valid_tx, num_vec_len,
}
use substrate_recipes.OcwDemo.Numbers.{
  last, submitted, dispatch-numbers, last-append, last_short, length-last,
}
use substrate_recipes.OcwDemo.Worker.{Env, Local, offchain_worker}
use substrate_recipes.OcwDemo.Worker.Submits.{
  submitted_signed, submitted_unsigned, submitted_with_payload, pool-fetch_github_info,
}
use substrate_recipes.OcwDemo.Chain.{
  Both, due, all_due, include, include_all, block, blocks, AreConnected,
}

due_now : (n : ℕ) → (n % 4 ≢ 0) → due n ≡ n ∷ []
unfolding due
due_now n busy = ground arith

due_none : (n : ℕ) → n % 4 ≡ 0 → due n ≡ []
unfolding due
due_none n idle = ground arith

module _ {Origin : Type 0} (codec : Codec) (frame : Frame Origin) (env : Env) (usize_bits : ℕ)
    (account nobody : Origin) where
  -- A pool whose inclusion adds exactly these numbers.
  Adds : List PalletCall → List ℕ → Type 0
  Adds calls xs =
      (now : ℕ) (s : State)
      → length s.numbers ≤ num_vec_len
      → (include_all codec frame env usize_bits account nobody now calls s).numbers
        ≡ last num_vec_len (s.numbers ++ xs)

  module _ (h : AreConnected codec frame env usize_bits account nobody) where
    Adds-nil : Adds [] []
    unfolding Adds include_all
    Adds-nil now s short =
        sym (ap (last num_vec_len) (append-nil s.numbers) ∙ last_short num_vec_len s.numbers short)

    Adds-signed : (x : ℕ) → Adds (submit_number_signed_call x ∷ []) (x ∷ [])
    unfolding Adds include_all include submitted
    Adds-signed x now s short =
        let call = submit_number_signed_call x in
        let one : submitted codec frame account call ≡ x ∷ [] =
          rw (submitted, h.account_signs) refl in
        dispatch-numbers codec frame now account call s short
        ∙ ap (λ xs. last num_vec_len (s.numbers ++ xs)) one

    Adds-unsigned : (x : ℕ) → Adds (submit_number_unsigned_call x ∷ []) (x ∷ [])
    unfolding Adds include_all include validate_unsigned submitted
    Adds-unsigned x now s short =
        let call = submit_number_unsigned_call x in
        let one : submitted codec frame nobody call ≡ x ∷ [] =
          rw (submitted, h.nobody_is_none) refl in
        dispatch-numbers codec frame now nobody call s short
        ∙ ap (λ xs. last num_vec_len (s.numbers ++ xs)) one

    Adds-payload :
        (p : Payload) (sig : ℕ)
        → validate_unsigned codec (submit_number_unsigned_with_signed_payload_call p sig)
          ≡ valid_tx "submit_number_unsigned_with_signed_payload"
        → Adds (submit_number_unsigned_with_signed_payload_call p sig ∷ []) (p.number ∷ [])
    unfolding Adds include_all include submitted
    Adds-payload p sig good now s short =
        let call = submit_number_unsigned_with_signed_payload_call p sig in
        let one : submitted codec frame nobody call ≡ p.number ∷ [] =
          rw (submitted, h.nobody_is_none) refl in
        rw good (
          dispatch-numbers codec frame now nobody call s short
          ∙ ap (λ xs. last num_vec_len (s.numbers ++ xs)) one)

    same-Adds :
        {calls calls' : List PalletCall} {xs xs' : List ℕ}
        → calls ≡ calls'
        → xs ≡ xs'
        → Adds calls' xs'
        → Adds calls xs
    same-Adds {calls} {xs'} c x adds =
        subst (λ ys. Adds calls ys) (sym x) (subst (λ cs. Adds cs xs') (sym c) adds)

    only : (l : Local) (call : PalletCall) → l.pool ≡ [] → l.pool ++ (call ∷ []) ≡ call ∷ []
    only l call empty = ap (λ calls. calls ++ (call ∷ [])) empty

    worker-Adds :
        (n : ℕ) (index : List (List ℕ × List ℕ)) (l : Local)
        → l.pool ≡ []
        → n < 2 ^ 64
        → n < 2 ^ usize_bits
        → Adds (offchain_worker codec env usize_bits n index l).local.pool (due n)
    worker-Adds n index l empty fits small = elim (Bool-cases (n % 4 == 0)) [
      | inl e ↦
          let kind : n % 4 ≡ 0 = ground arith in
          same-Adds (pool-fetch_github_info codec env usize_bits n index l small kind ∙ empty)
            (due_none n kind) Adds-nil
      | inr e ↦ elim (Bool-cases (n % 4 == 1)) [
        | inl e' ↦
            let kind : n % 4 ≡ 1 = ground arith in
            let call = submit_number_signed_call n in
            let (_, pool) =
              submitted_signed codec env usize_bits h.who n index l h.has_key (h.accepts call) fits
                small kind in
            same-Adds (pool ∙ only l call empty) (due_now n (omega (arith, kind))) (Adds-signed n)
        | inr e' ↦ elim (Bool-cases (n % 4 == 2)) [
          | inl e'' ↦
              let kind : n % 4 ≡ 2 = ground arith in
              let call = submit_number_unsigned_call n in
              let (_, pool) =
                submitted_unsigned codec env usize_bits n index l (h.accepts call) fits small
                  kind in
              same-Adds (pool ∙ only l call empty) (due_now n (omega (arith, kind)))
                (Adds-unsigned n)
          | inr e'' ↦
              let kind : n % 4 ≡ 3 = ground arith in
              let p : Payload = record { number = n; public = h.who } in
              let sig = h.signature p in
              let call = submit_number_unsigned_with_signed_payload_call p sig in
              let (_, pool, good) =
                submitted_with_payload codec env usize_bits h.who sig n index l h.has_key
                  (h.signs p) h.verifies (h.accepts call) fits small kind in
              same-Adds (pool ∙ only l call empty) (due_now n (omega (arith, kind)))
                (Adds-payload p sig good)
        ]
      ]
    ]

    -- After blocks 1 to n, the list is the last ten numbers of the blocks before, and the pool holds what
    -- the next block adds to it.
    blocks_lem :
        (n : ℕ) (b : Both)
        → b.chain.numbers ≡ []
        → b.node.pool ≡ []
        → n < 2 ^ 64
        → n < 2 ^ usize_bits
        → let b' = blocks codec frame env usize_bits account nobody n b in
          (b'.chain.numbers ≡ last num_vec_len (all_due n)) × Adds b'.node.pool (due n)
    unfolding blocks all_due block Adds
    blocks_lem zero b fresh empty fits small = (
      fresh ∙ sym (last_short num_vec_len [] (omega arith)),
      same-Adds empty (due_none 0 refl) Adds-nil,
    )
    blocks_lem (suc n) b fresh empty fits small =
        let (same, adds) = blocks_lem n b fresh empty (omega arith) (omega arith) in
        let b' = blocks codec frame env usize_bits account nobody n b in
        let s =
          include_all codec frame env usize_bits account nobody (suc n) b'.node.pool b'.chain in
        (
          adds (suc n) b'.chain (rw same (length-last num_vec_len (all_due n)))
              ∙ ap (λ xs. last num_vec_len (xs ++ due n)) same
              ∙ last-append num_vec_len (all_due n) (due n),
          worker-Adds (suc n) s.index (record b'.node { pool = [] }) refl fits small,
        )

    -- A chain that starts with no numbers, and a node that starts with an empty pool. Where the
    -- node has the key of an account, what it signs verifies, its pool takes every call, and the
    -- origins are those of the account and of nobody: after n blocks, for n below 2 ^ 64 and a
    -- `usize`, each of which executes what the worker of the block before submitted, the stored
    -- list is the last ten of the block numbers below n that are not multiples of four.
    pub numbers-blocks :
        (n : ℕ) (b : Both)
        → b.chain.numbers ≡ []
        → b.node.pool ≡ []
        → n < 2 ^ 64
        → n < 2 ^ usize_bits
        → (blocks codec frame env usize_bits account nobody n b).chain.numbers
          ≡ last num_vec_len (all_due n)
    numbers-blocks n b fresh empty fits small = (blocks_lem n b fresh empty fits small).0
