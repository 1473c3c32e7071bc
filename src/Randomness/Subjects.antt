-- ===== src/Randomness/Subjects.antt =====
-- The subjects of a sequence of draws.
use substrate_recipes.Prelude.{
  ℕ, zero, suc, ◌+◌, ◌%◌, ◌^◌, ◌<◌, ◌≤◌, ◌≡◌, ◌≢◌, refl, sym, ap, subst, ◌∙◌, none, some, List, [],
  ◌∷◌, ◌++◌, arith, Option-cases, inl, inr, map, All,
}
use mathlib.Core.List.{append_assoc, append-nil}
use substrate_recipes.Frame.{Frame}
use substrate_recipes.Randomness.{
  Config, State, Event, randomness_consumed, consume_randomness, encode_and_update_nonce,
}

module _ {Origin : Type 0} (config : Config) (frame : Frame Origin) where
  -- Some calls, each in its block and by its origin, one after the other.
  unfoldable pub consume_all : List (ℕ × Origin) → State → State
  consume_all [] s = s
  consume_all ((now, o) ∷ calls) s = consume_all calls (consume_randomness config frame now o s).1

  -- How many of the calls are signed.
  unfoldable pub signed_count : List (ℕ × Origin) → ℕ
  signed_count [] = 0
  signed_count ((now, o) ∷ calls) = elim (frame.ensure_signed o) [
    | none ↦ signed_count calls
    | some who ↦ suc (signed_count calls)
  ]

  -- The subjects of some draws in a row, from a nonce on.
  unfoldable pub subjects : ℕ → ℕ → List (List ℕ)
  subjects n zero = []
  subjects n (suc k) = config.encode n ∷ subjects ((n + 1) % 2 ^ 32) k

  -- The blocks of the signed calls, each with its subject, from a nonce on.
  unfoldable pub draws : ℕ → List (ℕ × Origin) → List (ℕ × List ℕ)
  draws n [] = []
  draws n ((now, o) ∷ calls) = elim (frame.ensure_signed o) [
    | none ↦ draws n calls
    | some who ↦ (now, config.encode n) ∷ draws ((n + 1) % 2 ^ 32) calls
  ]

  -- The event of a draw: the seed of its block, and what the source gives there for its subject.
  abbrev pub consumed : ℕ × List ℕ → Event
  consumed draw = randomness_consumed (config.random_seed draw.0) (config.random draw.0 draw.1)

  abbrev drawn : ℕ → State → State
  drawn now s = record {
    nonce = (s.nonce + 1) % 2 ^ 32;
    events = s.events ++ (consumed (now, config.encode s.nonce) ∷ []);
  }

  consume_signed :
      (now : ℕ) (o : Origin) (who : ℕ) (s : State)
      → frame.ensure_signed o ≡ some who
      → (consume_randomness config frame now o s).1 ≡ drawn now s
  unfolding consume_randomness encode_and_update_nonce
  consume_signed now o who s e = rw e refl

  consume_unsigned :
      (now : ℕ) (o : Origin) (s : State)
      → frame.ensure_signed o ≡ none
      → (consume_randomness config frame now o s).1 ≡ s
  unfolding consume_randomness
  consume_unsigned now o s e = rw e refl

  events-consume_all :
      (calls : List (ℕ × Origin)) (s : State)
      → (consume_all calls s).events ≡ s.events ++ map consumed (draws s.nonce calls)
  unfolding consume_all draws
  events-consume_all [] s = sym (append-nil s.events)
  events-consume_all ((now, o) ∷ calls) s = elim (Option-cases (frame.ensure_signed o)) [
    | inl e ↦
        let d : draws s.nonce ((now, o) ∷ calls) ≡ draws s.nonce calls = rw (e, draws) refl in
        ap (λ t. (consume_all calls t).events) (consume_unsigned now o s e)
        ∙ events-consume_all calls s
        ∙ ap (λ ds. s.events ++ map consumed ds) (sym d)
    | inr (who, e) ↦
        let draw : ℕ × List ℕ = (now, config.encode s.nonce) in
        let later = draws ((s.nonce + 1) % 2 ^ 32) calls in
        let d : draws s.nonce ((now, o) ∷ calls) ≡ draw ∷ later = rw (e, draws) refl in
        ap (λ t. (consume_all calls t).events) (consume_signed now o who s e)
        ∙ events-consume_all calls (drawn now s)
        ∙ append_assoc s.events (consumed draw ∷ []) (map consumed later)
        ∙ ap (λ ds. s.events ++ map consumed ds) (sym d)
  ]

  subjects-draws :
      (n : ℕ) (calls : List (ℕ × Origin))
      → map (λ draw. draw.1) (draws n calls) ≡ subjects n (signed_count calls)
  unfolding draws subjects signed_count
  subjects-draws n [] = refl
  subjects-draws n ((now, o) ∷ calls) = elim (Option-cases (frame.ensure_signed o)) [
    | inl e ↦ rw (e, map, draws, signed_count) (subjects-draws n calls)
    | inr (who, e) ↦
        rw (e, map, draws, signed_count)
          (ap (λ xs. config.encode n ∷ xs) (subjects-draws ((n + 1) % 2 ^ 32) calls))
  ]

  -- The encoding of a `u32` can be read back.
  abbrev pub IsEncoding : Type 0
  IsEncoding = (m n : ℕ) → m < 2 ^ 32 → n < 2 ^ 32 → config.encode m ≡ config.encode n → m ≡ n

  unfoldable pub AreDistinct : List (List ℕ) → Type 0
  AreDistinct [] = Unit
  AreDistinct (x ∷ xs) = All (λ y. x ≢ y) xs × AreDistinct xs

  fresh :
      IsEncoding
      → (n d k : ℕ) → n < 2 ^ 32
      → 1 ≤ d
      → d + k ≤ 2 ^ 32
      → All (λ y. config.encode n ≢ y) (subjects ((n + d) % 2 ^ 32) k)
  unfolding subjects
  fresh law n d zero small pos room = tt
  fresh law n d (suc k) small pos room =
      let e : ((n + d) % 2 ^ 32 + 1) % 2 ^ 32 ≡ (n + (d + 1)) % 2 ^ 32 = omega arith in
      (
        λ same.
            let again : n ≡ (n + d) % 2 ^ 32 = law n ((n + d) % 2 ^ 32) small (omega arith) same in
            omega (arith, again),
        subst (λ m. All (λ y. config.encode n ≢ y) (subjects m k)) (sym e)
            (fresh law n (d + 1) k small (omega arith) (omega arith)),
      )

  subjects-AreDistinct :
      IsEncoding → (n k : ℕ) → n < 2 ^ 32 → k ≤ 2 ^ 32 → AreDistinct (subjects n k)
  unfolding subjects AreDistinct
  subjects-AreDistinct law n zero small room = tt
  subjects-AreDistinct law n (suc k) small room = (
    fresh law n 1 k small (omega arith) (omega arith),
    subjects-AreDistinct law ((n + 1) % 2 ^ 32) k (omega arith) (omega arith),
  )

  -- With an encoding that tells all values of a `u32` apart, from a nonce that is one: calls by any
  -- origins in any blocks draw once for each that is signed, in their order, from the source as it is
  -- in the block of the call, each with its own subject in turn, and as long as these are at
  -- most 2 ^ 32 no two subjects are the same, in one block or in several, wherever the nonce starts.
  pub consume_all_lem :
      IsEncoding
      → (calls : List (ℕ × Origin)) (s : State) → s.nonce < 2 ^ 32
      → signed_count calls ≤ 2 ^ 32
      → let drawn = draws s.nonce calls in
        ((consume_all calls s).events ≡ s.events ++ map consumed drawn)
        × (map (λ draw. draw.1) drawn ≡ subjects s.nonce (signed_count calls))
        × AreDistinct (map (λ draw. draw.1) drawn)
  consume_all_lem law calls s small room =
      let same = subjects-draws s.nonce calls in
      (
        events-consume_all calls s,
        same,
        subst AreDistinct (sym same)
            (subjects-AreDistinct law s.nonce (signed_count calls) small room),
      )
