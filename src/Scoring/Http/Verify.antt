-- ===== src/Scoring/Http/Verify.antt =====
-- When the API records a solve.
use training_platform.Shared.{
  Bytes, ℕ, ◌≡◌, ◌≢◌, ◌⊎◌, refl, Bool, true, ◌&&◌, Option, none, some, arith, Bool-cases,
  Option-cases, inl, inr,
}
use training_platform.Shared.Int.{ℤ}
use training_platform.Scoring.Challenge.{Challenge, VerifySpec, spec_matches, assertive}
use training_platform.Scoring.Journal.{Codec, Written}
use training_platform.Scoring.Store.{Store, get, commit_solve}
use training_platform.Scoring.Http.{
  Request, VerifyRequest, Decoder, Body, verify_correct, Response, Fetched, page, fetch_error,
  is_post, is_ok, Checked, refused, fetched, check_verify, conclude, judge, handle_verify,
}

module _ (json : Codec) (out : Written) (now : Bytes) (decoder : Decoder)
    (compile : Bytes → Option (Bytes → Bool)) where
  -- A page that earns a solve.
  abbrev pub IsPassing : VerifySpec → Fetched → Type 0
  IsPassing v (fetch_error message) = ⊥
  IsPassing v (page status content) =
      (is_ok status ≡ true) × (spec_matches compile v content ≡ true)

  -- What a verify request that reaches the fetch rests on.
  pub record IsChecked (fetcher : Option (Bytes → ℤ → Bytes → Fetched)) (s : Store) (r : Request)
      (c : Challenge) (v : VerifySpec) (f : Fetched) : Type 0 where
    pub posted : is_post r ≡ true
    pub fetch : Bytes → ℤ → Bytes → Fetched
    pub fetcher_there : fetcher ≡ some fetch
    pub request : VerifyRequest
    pub decoded : decoder.verify r.body ≡ some request
    pub registered : get s request.challenge_hash ≡ some c
    pub declared : c.verify ≡ some v
    pub asserts : assertive (some v) ≡ true
    pub page_of_pod : f ≡ fetch request.pod v.port v.path

  check_verify_fetched :
      (fetcher : Option (Bytes → ℤ → Bytes → Fetched)) (s : Store) (r : Request) (c : Challenge)
      (v : VerifySpec) (f : Fetched)
      → check_verify json out now decoder fetcher s r ≡ fetched c v f
      → IsChecked fetcher s r c v f
  unfolding check_verify
  check_verify_fetched none s r c v f e = absurd (ground arith)
  check_verify_fetched (some fetch) s r c v f e = elim (Option-cases (decoder.verify r.body)) [
    | inl q ↦ absurd (ground arith)
    | inr (req, q) ↦ elim (Option-cases (get s req.challenge_hash)) [
      | inl k ↦ absurd (ground arith)
      | inr (d, k) ↦ elim (Option-cases d.verify) [
        | inl n ↦ absurd (ground arith)
        | inr (w, n) ↦ record {
          posted = ground arith;
          fetch = fetch;
          fetcher_there = refl;
          request = req;
          decoded = q;
          registered = ground arith;
          declared = ground arith;
          asserts = ground arith;
          page_of_pod = ground arith;
        }
      ]
    ]
  ]

  check_verify_refused :
      (fetcher : Option (Bytes → ℤ → Bytes → Fetched)) (s : Store) (r : Request) (status : ℕ)
      (body : Body)
      → check_verify json out now decoder fetcher s r ≡ refused status body
      → body ≢ verify_correct
  unfolding check_verify
  check_verify_refused fetcher s r status body e h = ground arith

  -- The outcome of a verify request: a solve is recorded, or nothing happened to the store.
  abbrev pub Recorded :
      Option (Bytes → ℤ → Bytes → Fetched) → Store → Request → Store × Response → Type 0
  Recorded fetcher s r answer =
      (answer.1.body ≡ verify_correct)
      × ((c : Challenge) × (v : VerifySpec) × (f : Fetched) × IsChecked fetcher s r c v f
          × IsPassing v f
          × (answer.0 ≡ commit_solve json out now s c.hash r.user))

  judge_lem :
      (fetcher : Option (Bytes → ℤ → Bytes → Fetched)) (s : Store) (r : Request) (c : Challenge)
      (v : VerifySpec) (f : Fetched)
      → IsChecked fetcher s r c v f
      → let answer = judge json out now decoder compile s c v r.user f in
        ((answer.1.body ≢ verify_correct) × (answer.0 ≡ s)) ⊎ Recorded fetcher s r answer
  unfolding judge
  judge_lem fetcher s r c v (fetch_error message) k = inl ((λ h. cc), refl)
  judge_lem fetcher s r c v (page status content) k =
      elim (Bool-cases (is_ok status && spec_matches compile v content)) [
        | inl good ↦ inr (
          ground arith,
          (c, v, page status content, k, (ground arith, ground arith), ground arith),
        )
        | inr bad ↦ inl ((λ h. ground arith), ground arith)
      ]

  conclude_lem :
      (fetcher : Option (Bytes → ℤ → Bytes → Fetched)) (s : Store) (r : Request) (k : Checked)
      → check_verify json out now decoder fetcher s r ≡ k
      → let answer = conclude json out now decoder compile s r k in
        ((answer.1.body ≢ verify_correct) × (answer.0 ≡ s)) ⊎ Recorded fetcher s r answer
  unfolding conclude
  conclude_lem fetcher s r (refused status body) e =
      inl (check_verify_refused fetcher s r status body e, refl)
  conclude_lem fetcher s r (fetched c v f) e =
      judge_lem fetcher s r c v f (check_verify_fetched fetcher s r c v f e)

  -- A verify request that is not answered "correct" leaves the store as it was. One that is has been
  -- posted for a registered challenge with an assertion, and the page fetched at the challenge's own
  -- port and path had status 200 and satisfied the assertion; it records that challenge for the
  -- user of the request, and does nothing else to the store.
  pub handle_verify_lem :
      (fetcher : Option (Bytes → ℤ → Bytes → Fetched)) (s : Store) (r : Request)
      → let answer = handle_verify json out now decoder compile fetcher s r in
        ((answer.1.body ≢ verify_correct) × (answer.0 ≡ s)) ⊎ Recorded fetcher s r answer
  unfolding handle_verify
  handle_verify_lem fetcher s r =
      conclude_lem fetcher s r (check_verify json out now decoder fetcher s r) refl
