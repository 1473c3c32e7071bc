-- ===== src/OcwDemo/Worker/Cache.antt =====
-- The organisation's data is fetched once: from a run that has stored it on, no run makes a request.
use substrate_recipes.Prelude.{
  ℕ, ◌+◌, ◌%◌, ◌^◌, ◌<◌, ◌≡◌, refl, ap, ◌∙◌, true, none, some, List, [], ◌∷◌, arith, lt→ltb,
}
use Prim.Native.String.{String}
use substrate_recipes.Frame.{ok}
use substrate_recipes.OcwDemo.{Codec}
use substrate_recipes.OcwDemo.Worker.{GithubInfo, Env, Local, response, offchain_worker}

-- A run: what it finds around it, its block, and the entries of the index at that block.
pub record Round : Type 0 where
  pub env : Env
  pub block_number : ℕ
  pub index : List (List ℕ × List ℕ)

module _ (codec : Codec) (usize_bits : ℕ) where
  unfoldable pub run_rounds : List Round → Local → Local
  run_rounds [] l = l
  run_rounds (r ∷ rs) l =
      run_rounds rs (offchain_worker codec r.env usize_bits r.block_number r.index l).local

  cached_round :
      (env : Env) (block_number : ℕ) (index : List (List ℕ × List ℕ)) (info : GithubInfo)
      (l : Local)
      → l.gh_info ≡ some (some info)
      → let l' = (offchain_worker codec env usize_bits block_number index l).local in
        (l'.gh_info ≡ some (some info)) × (l'.requests ≡ l.requests)
  unfolding offchain_worker
  cached_round env block_number index info l h = ground arith

  -- With the data stored, no sequence of runs makes a request or changes the data.
  pub cached_forever :
      (rounds : List Round) (info : GithubInfo) (l : Local)
      → l.gh_info ≡ some (some info)
      → let l' = run_rounds rounds l in (l'.gh_info ≡ some (some info)) × (l'.requests ≡ l.requests)
  unfolding run_rounds
  cached_forever [] info l h = (h, refl)
  cached_forever (r ∷ rs) info l h =
      let l' = (offchain_worker codec r.env usize_bits r.block_number r.index l).local in
      let (h', e) = cached_round r.env r.block_number r.index info l h in
      let (h'', e') = cached_forever rs info l' h' in (h'', e' ∙ e)

  first_round :
      (env : Env) (block_number : ℕ) (index : List (List ℕ × List ℕ)) (body : List ℕ)
      (text : String) (info : GithubInfo) (l : Local)
      → l.gh_info ≡ none
      → block_number < 2 ^ usize_bits
      → block_number % 4 ≡ 0
      → env.lock_is_free ≡ true
      → env.http ≡ response 200 body
      → env.from_utf8 body ≡ some text
      → env.from_json text ≡ some info
      → (offchain_worker codec env usize_bits block_number index l).result ≡ ok tt
        × ((offchain_worker codec env usize_bits block_number index l).local
            ≡ record l { gh_info = some (some info); requests = l.requests + 1 })
  unfolding offchain_worker
  first_round env block_number index body text info l cold small due free got utf8 json =
      rw (lt→ltb block_number (2 ^ usize_bits) small, due, cold, free, got, utf8, json)
        (rw utf8 (refl, refl))

  -- With nothing stored, a run at a block whose number is a `usize` and a multiple of four, with
  -- the lock free and a response of code 200 whose body is text that parses, returns ok, makes one
  -- request and stores what was parsed; whatever runs come after it, no further request is made and
  -- the data stays.
  pub fetched_once :
      (env : Env) (block_number : ℕ) (index : List (List ℕ × List ℕ)) (body : List ℕ)
      (text : String) (info : GithubInfo) (rounds : List Round) (l : Local)
      → l.gh_info ≡ none
      → block_number < 2 ^ usize_bits
      → block_number % 4 ≡ 0
      → env.lock_is_free ≡ true
      → env.http ≡ response 200 body
      → env.from_utf8 body ≡ some text
      → env.from_json text ≡ some info
      → let report = offchain_worker codec env usize_bits block_number index l in
        let l' = run_rounds rounds report.local in
        (report.result ≡ ok tt) × (l'.gh_info ≡ some (some info)) × (l'.requests ≡ l.requests + 1)
  fetched_once env block_number index body text info rounds l cold small due free got utf8 json =
      let report = offchain_worker codec env usize_bits block_number index l in
      let (done, left) =
        first_round env block_number index body text info l cold small due free got utf8 json in
      let (stored, quiet) = cached_forever rounds info report.local (ap (λ x. x.gh_info) left) in
      (done, stored, quiet ∙ ap (λ x. x.requests) left)
