-- ===== src/Randomness/Tests.antt =====
-- Draws around the end of the nonces, in two blocks.
use substrate_recipes.Prelude.{
  ℕ, ◌+◌, ◌-◌, ◌^◌, ◌≡◌, refl, ap, none, some, List, [], ◌∷◌, ◌++◌, map, arith,
}
use substrate_recipes.Mock.{Origin, mock_frame}
use substrate_recipes.Randomness.{
  Config, State, randomness_consumed, consume_randomness, encode_and_update_nonce,
}
use substrate_recipes.Randomness.Subjects.{
  consume_all, signed_count, subjects, draws, consumed, IsEncoding, AreDistinct, consume_all_lem,
}

abbrev first : List ℕ → ℕ
first [] = 0
first (x ∷ xs) = x

abbrev config : Config
config = record {
  encode = λ n. n ∷ [];
  random_seed = λ now. now;
  random = λ now subject. now + first subject;
}

encode-IsEncoding : IsEncoding config mock_frame
encode-IsEncoding m n hm hn h = ap first h

abbrev last_nonce : State
last_nonce = record { nonce = 2 ^ 32 - 1; events = [] }

abbrev calls : List (ℕ × Origin)
calls = (5, some 1) ∷ (5, none) ∷ (6, some 2) ∷ []

two_signed : signed_count config mock_frame calls ≡ 2
unfolding signed_count
two_signed = refl

consume_all_lem_example :
    let drawn = draws config mock_frame (2 ^ 32 - 1) calls in
    ((consume_all config mock_frame calls last_nonce).events
      ≡ [] ++ map (consumed config mock_frame) drawn)
    × (map (λ draw. draw.1) drawn ≡ subjects config mock_frame (2 ^ 32 - 1) 2)
    × AreDistinct config mock_frame (map (λ draw. draw.1) drawn)
unfolding signed_count
consume_all_lem_example =
    consume_all_lem config mock_frame encode-IsEncoding calls last_nonce (omega arith)
      (omega (arith, two_signed))

drawn_twice :
    (consume_all config mock_frame calls last_nonce).events
    ≡ randomness_consumed 5 (5 + (2 ^ 32 - 1)) ∷ randomness_consumed 6 6 ∷ []
unfolding consume_all consume_randomness encode_and_update_nonce
drawn_twice = refl
