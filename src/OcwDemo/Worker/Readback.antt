-- ===== src/OcwDemo/Worker/Readback.antt =====
-- The off-chain index: what a call writes in a block, the worker of that block reads back.
use substrate_recipes.Prelude.{
  ℕ, ◌≡◌, ◌≢◌, refl, sym, ap, ◌∙◌, true, none, some, List, [], ◌∷◌, ◌++◌, arith, ◌==◌, Bool-cases,
  Option-cases, inl, inr,
}
use substrate_recipes.Frame.{Frame, ok}
use substrate_recipes.OcwDemo.{
  bytes, State, Codec, IndexingData, PalletCall, submit_number_signed_call,
  submit_number_unsigned_call, submit_number_unsigned_with_signed_payload_call, derived_key,
  onchain_tx_key, append_or_replace_number, dispatch,
}
use substrate_recipes.OcwDemo.Worker.{Env, Local, offchain_worker, read_index, bytes_eq}

-- What the codec promises: data decode to what was encoded, and no two blocks have one encoding.
pub record IsCodec (codec : Codec) : Type 0 where
  pub decode-encode : (d : IndexingData) → codec.decode_data (codec.encode_data d) ≡ some d
  pub encode-injective :
      (m n : ℕ) → codec.encode_block_number m ≡ codec.encode_block_number n → m ≡ n

-- What a call leaves in the index: its name and its number.
unfoldable pub entry_of : PalletCall → IndexingData
entry_of (submit_number_signed_call x) = record {
  submitted_by = bytes "submit_number_signed";
  submitted = x;
}
entry_of (submit_number_unsigned_call x) = record {
  submitted_by = bytes "submit_number_unsigned";
  submitted = x;
}
entry_of (submit_number_unsigned_with_signed_payload_call payload signature) = record {
  submitted_by = bytes "submit_number_unsigned_with_signed_payload";
  submitted = payload.number;
}

bytes_eq_refl : (xs : List ℕ) → bytes_eq xs xs ≡ true
bytes_eq_refl [] = refl
bytes_eq_refl (x ∷ xs) = rw (bytes_eq_refl xs) (ground arith)

bytes_eq→≡ : (xs ys : List ℕ) → bytes_eq xs ys ≡ true → xs ≡ ys
bytes_eq→≡ [] [] h = refl
bytes_eq→≡ [] (y ∷ ys) h = absurd (ground arith)
bytes_eq→≡ (x ∷ xs) [] h = absurd (ground arith)
bytes_eq→≡ (x ∷ xs) (y ∷ ys) h = elim (Bool-cases (x == y)) [
  | inl e ↦ let e' : x ≡ y = ground arith in let rest = bytes_eq→≡ xs ys (ground arith) in cc
  | inr e ↦ absurd (ground arith)
]

drop_prefix : (p : List ℕ) (xs ys : List ℕ) → p ++ xs ≡ p ++ ys → xs ≡ ys
drop_prefix [] xs ys h = h
drop_prefix (x ∷ p) xs ys h = drop_prefix p xs ys (cc)

module _ {Origin : Type 0} (codec : Codec) (frame : Frame Origin) where
  refused≢ok :
      (origin : Origin) (x now : ℕ) (s s' : State)
      → frame.ensure_signed origin ≡ none
      → dispatch codec frame now origin (submit_number_signed_call x) s ≢ (ok tt, s')
  unfolding dispatch
  refused≢ok origin x now s s' e = rw e ground arith

  index-dispatch :
      (now : ℕ) (origin : Origin) (call : PalletCall) (s s' : State)
      → dispatch codec frame now origin call s ≡ (ok tt, s')
      → s'.index ≡ (derived_key codec now, codec.encode_data (entry_of call)) ∷ s.index
  unfolding dispatch entry_of append_or_replace_number
  index-dispatch now origin (submit_number_signed_call x) s s' h =
      elim (Option-cases (frame.ensure_signed origin)) [
        | inl e ↦ absurd (refused≢ok origin x now s s' e h)
        | inr (who, e) ↦ sym (ap (λ x. x.1.index) h) ∙ rw e refl
      ]
  index-dispatch now origin (submit_number_unsigned_call x) s s' h = ground arith
  index-dispatch now origin (submit_number_unsigned_with_signed_payload_call payload signature) s s'
        h =
      ground arith

  derived_key-injective :
      IsCodec codec → (n now : ℕ) → derived_key codec now ≡ derived_key codec n → n ≡ now
  unfolding derived_key
  derived_key-injective law n now h =
      let tail =
        drop_prefix onchain_tx_key (b'/' ∷ codec.encode_block_number now)
          (b'/' ∷ codec.encode_block_number n) h in
      sym (
        law.encode-injective now n (
          drop_prefix (b'/' ∷ []) (codec.encode_block_number now) (codec.encode_block_number n)
            tail))

  -- With a codec that keeps its promises: after a call that succeeds in a block, the worker of that
  -- block reads the name and the number of the call back, and the worker of any other block reads
  -- what it would have read before.
  pub retrieved-dispatch :
      IsCodec codec
      → (env : Env) (usize_bits now : ℕ) (origin : Origin) (call : PalletCall) (s s' : State)
        (l : Local)
      → dispatch codec frame now origin call s ≡ (ok tt, s')
      → ((offchain_worker codec env usize_bits now s'.index l).retrieved ≡ some (entry_of call))
        × ((n : ℕ)
            → n ≢ now
            → (offchain_worker codec env usize_bits n s'.index l).retrieved
              ≡ (offchain_worker codec env usize_bits n s.index l).retrieved)
  unfolding offchain_worker read_index derived_key
  retrieved-dispatch law env usize_bits now origin call s s' l h =
      let e = index-dispatch now origin call s s' h in
      (
        rw (e, bytes_eq_refl (derived_key codec now)) (law.decode-encode (entry_of call)),
        λ n other. elim (Bool-cases (bytes_eq (derived_key codec now) (derived_key codec n))) [
          | inl same ↦ absurd (
              other (
                derived_key-injective law n now
                  (bytes_eq→≡ (derived_key codec now) (derived_key codec n) same)))
          | inr differ ↦ rw (e, differ) refl
        ],
      )
