-- ===== src/OcwDemo/Numbers.antt =====
-- The list of recent numbers against its meaning: the last ten of all numbers that were submitted.
use substrate_recipes.Prelude.{
  ℕ, zero, suc, ◌+◌, ◌-◌, ◌≤◌, ◌≡◌, refl, sym, ap, ◌∙◌, List, [], ◌∷◌, ◌++◌, none, some, arith,
  length, length-append, ◌==◌, if◌then◌else◌, Bool-cases, Option-cases, inl, inr,
}
use mathlib.Core.List.{append_assoc, append-nil}
use substrate_recipes.Frame.{Frame}
use substrate_recipes.OcwDemo.{
  State, Codec, PalletCall, submit_number_signed_call, submit_number_unsigned_call,
  submit_number_unsigned_with_signed_payload_call, num_vec_len, append_or_replace_number, dispatch,
  pop_front,
}

unfoldable pub drop : ℕ → List ℕ → List ℕ
drop zero xs = xs
drop (suc n) [] = []
drop (suc n) (x ∷ xs) = drop n xs

-- The last `n` items, or all if there are fewer.
unfoldable pub last : ℕ → List ℕ → List ℕ
unfolding drop
last n xs = drop (length xs - n) xs

length-drop : (n : ℕ) (xs : List ℕ) → length (drop n xs) ≡ length xs - n
unfolding drop
length-drop zero xs = omega arith
length-drop (suc n) [] = omega arith
length-drop (suc n) (x ∷ xs) = omega (arith, length-drop n xs)

drop-nil : (n : ℕ) → drop n [] ≡ []
unfolding drop
drop-nil zero = refl
drop-nil (suc n) = refl

drop-drop : (i j : ℕ) (xs : List ℕ) → drop i (drop j xs) ≡ drop (j + i) xs
unfolding drop
drop-drop i zero xs = ap (λ k. drop k xs) (omega arith)
drop-drop i (suc j) [] = drop-nil i ∙ sym (drop-nil (suc j + i))
drop-drop i (suc j) (x ∷ xs) =
    let e : suc (j + i) ≡ suc j + i = omega arith in drop-drop i j xs ∙ ap (λ k. drop k (x ∷ xs)) e

drop-append : (n : ℕ) (xs ys : List ℕ) → n ≤ length xs → drop n (xs ++ ys) ≡ drop n xs ++ ys
unfolding drop
drop-append zero xs ys h = refl
drop-append (suc n) [] ys h = absurd (omega arith)
drop-append (suc n) (x ∷ xs) ys h = drop-append n xs ys (omega arith)

-- What was dropped before can be dropped at once.
pub last-append : (n : ℕ) (xs ys : List ℕ) → last n (last n xs ++ ys) ≡ last n (xs ++ ys)
unfolding last
last-append n xs ys =
    let j = length xs - n in
    let k = length (drop j xs ++ ys) - n in
    ap (drop k) (sym (drop-append j xs ys (omega arith)))
    ∙ drop-drop k j (xs ++ ys)
    ∙ ap (λ m. drop m (xs ++ ys))
        (omega (arith, length-append {0} (drop j xs) ys, length-append {0} xs ys, length-drop j xs))

pub last_short : (n : ℕ) (xs : List ℕ) → length xs ≤ n → last n xs ≡ xs
unfolding last
last_short n xs h = let e : length xs - n ≡ 0 = omega arith in rw e refl

pub length-last : (n : ℕ) (xs : List ℕ) → length (last n xs) ≤ n
unfolding last
length-last n xs = omega (arith, length-drop (length xs - n) xs)

pop_front-eq-drop : (xs : List ℕ) → pop_front xs ≡ drop 1 xs
unfolding drop
pop_front-eq-drop [] = refl
pop_front-eq-drop (x ∷ xs) = refl

last_full :
    (n x : ℕ) (xs : List ℕ)
    → length xs ≡ suc n
    → last (suc n) (xs ++ (x ∷ [])) ≡ pop_front xs ++ (x ∷ [])
unfolding last
last_full n x xs h =
    let e : length (xs ++ (x ∷ [])) - suc n ≡ 1 = omega (arith, length-append {0} xs (x ∷ [])) in
    ap (λ k. drop k (xs ++ (x ∷ []))) e
    ∙ drop-append 1 xs (x ∷ []) (omega arith)
    ∙ ap (λ ys. ys ++ (x ∷ [])) (sym (pop_front-eq-drop xs))

-- One number more.
append_or_replace_number_lem :
    (x : ℕ) (s : State)
    → length s.numbers ≤ num_vec_len
    → (append_or_replace_number x s).numbers ≡ last num_vec_len (s.numbers ++ (x ∷ []))
unfolding append_or_replace_number
append_or_replace_number_lem x s h = elim (Bool-cases (length s.numbers == num_vec_len)) [
  | inl full ↦ rw full (sym (last_full 9 x s.numbers (ground arith)))
  | inr room ↦ rw room (
      sym (
        last_short num_vec_len (s.numbers ++ (x ∷ []))
          (ground (arith, length-append s.numbers (x ∷ [])))))
]

module _ {Origin : Type 0} (codec : Codec) (frame : Frame Origin) where
  -- The number that a call submits, where its origin is the one that it asks for.
  unfoldable pub submitted : Origin → PalletCall → List ℕ
  submitted origin (submit_number_signed_call x) = elim (frame.ensure_signed origin) [
    | none ↦ []
    | some who ↦ x ∷ []
  ]
  submitted origin (submit_number_unsigned_call x) = if frame.ensure_none origin then x ∷ [] else []
  submitted origin (submit_number_unsigned_with_signed_payload_call payload signature) =
      if frame.ensure_none origin then payload.number ∷ [] else []

  -- Calls with the block and the origin of each, one after the other.
  unfoldable pub all_submitted : List (ℕ × Origin × PalletCall) → List ℕ
  unfolding submitted
  all_submitted [] = []
  all_submitted ((now, origin, call) ∷ calls) = submitted origin call ++ all_submitted calls

  unfoldable pub run : List (ℕ × Origin × PalletCall) → State → State
  run [] s = s
  run ((now, origin, call) ∷ calls) s = run calls (dispatch codec frame now origin call s).1

  pub dispatch-numbers :
      (now : ℕ) (origin : Origin) (call : PalletCall) (s : State)
      → length s.numbers ≤ num_vec_len
      → (dispatch codec frame now origin call s).1.numbers
        ≡ last num_vec_len (s.numbers ++ submitted origin call)
  unfolding dispatch submitted
  dispatch-numbers now origin (submit_number_signed_call x) s h =
      elim (Option-cases (frame.ensure_signed origin)) [
        | inl e ↦ rw (e, submitted, append-nil) (sym (last_short num_vec_len s.numbers h))
        | inr (who, e) ↦ rw (e, submitted) (append_or_replace_number_lem x s h)
      ]
  dispatch-numbers now origin (submit_number_unsigned_call x) s h =
      elim (Bool-cases (frame.ensure_none origin)) [
        | inl e ↦ rw e (append_or_replace_number_lem x s h)
        | inr e ↦ rw (e, append-nil) (sym (last_short num_vec_len s.numbers h))
      ]
  dispatch-numbers now origin (submit_number_unsigned_with_signed_payload_call payload signature) s
        h =
      elim (Bool-cases (frame.ensure_none origin)) [
        | inl e ↦ rw e (append_or_replace_number_lem payload.number s h)
        | inr e ↦ rw (e, append-nil) (sym (last_short num_vec_len s.numbers h))
      ]

  -- From a list of at most ten numbers, whatever calls are made by whatever origins, the stored list
  -- is the last ten of the numbers before followed by those that were submitted, in their order, by
  -- an origin that the call asks for; it never holds more than ten.
  pub run-numbers :
      (calls : List (ℕ × Origin × PalletCall)) (s : State)
      → length s.numbers ≤ num_vec_len
      → ((run calls s).numbers ≡ last num_vec_len (s.numbers ++ all_submitted calls))
        × (length (run calls s).numbers ≤ num_vec_len)
  unfolding run all_submitted
  run-numbers [] s h = (rw append-nil (sym (last_short num_vec_len s.numbers h)), h)
  run-numbers ((now, origin, call) ∷ calls) s h =
      let s' = (dispatch codec frame now origin call s).1 in
      let e = dispatch-numbers now origin call s h in
      let h' : length s'.numbers ≤ num_vec_len =
        rw e (length-last num_vec_len (s.numbers ++ submitted origin call)) in
      let (same, bounded) = run-numbers calls s' h' in
      (
        same
            ∙ ap (λ xs. last num_vec_len (xs ++ all_submitted calls)) e
            ∙ last-append num_vec_len (s.numbers ++ submitted origin call) (all_submitted calls)
            ∙ ap (last num_vec_len)
                (append_assoc s.numbers (submitted origin call) (all_submitted calls)),
        bounded,
      )
