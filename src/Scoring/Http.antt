-- ===== src/Scoring/Http.antt =====
-- internal/scoring/http.go: the scoring API. Bodies are decoded by the parameter `Decoder`, and the
-- user of a request is an argument.
pub mod Verify
pub mod Disclosure
use training_platform.Shared.{
  is_empty, Bytes, codes, ℕ, Bool, true, false, not, ◌&&◌, ◌||◌, Option, none, some, List, [], ◌∷◌,
  ◌++◌, map, all, str_eq, leb, ◌==◌, if◌then◌else◌, cut_prefix,
}
use training_platform.Shared.Int.{ℤ}
use training_platform.Shared.Hex.{is_hex_digit}
use training_platform.Scoring.Challenge.{Challenge, VerifySpec, spec_matches, assertive}
use training_platform.Scoring.Journal.{Codec, Written}
use training_platform.Scoring.Store.{Store, get, grade, commit_solve}
use training_platform.Scoring.Report.{Solve, Standings, list_challenges, results, standings}

-- http.Request, as far as the API reads it: `user` is what userIDFunc makes of it.
pub record Request : Type 0 where
  pub method : Bytes
  pub path : Bytes
  pub body : Bytes
  pub user : Bytes

-- type attemptRequest struct
pub record AttemptRequest : Type 0 where
  pub challenge_hash : Bytes
  pub submission : Bytes

-- type verifyRequest struct
pub record VerifyRequest : Type 0 where
  pub challenge_hash : Bytes
  pub pod : Bytes

-- json.Decoder on the two bodies; `none` is a decoding error.
pub record Decoder : Type 0 where
  pub attempt : Bytes → Option AttemptRequest
  pub verify : Bytes → Option VerifyRequest

-- What of a challenge a client sees.
pub record PublicChallenge : Type 0 where
  pub hash : Bytes
  pub name : Bytes
  pub value : ℤ

-- The bodies of the answers.
pub data Body : Type 0 where
  unsuccessful : Body
  unavailable no_assertion method_not_allowed not_found_page no_content : Body
  challenge_list : List PublicChallenge → Body
  scoreboard : List Solve → Body
  ranking : Standings → Body
  challenge : PublicChallenge → Body
  attempt_correct attempt_incorrect : Body
  verify_correct : Body
  verify_incorrect : ℤ → Body
  verify_unreachable : Bytes → Body

pub record Response : Type 0 where
  pub status : ℕ
  pub body : Body

-- PodFetcher.FetchPod: the page of a Pod, or an error.
pub data Fetched : Type 0 where
  page : ℤ → Bytes → Fetched
  fetch_error : Bytes → Fetched

-- How far a verify request comes before its page is judged.
pub data Checked : Type 0 where
  refused : ℕ → Body → Checked
  fetched : Challenge → VerifySpec → Fetched → Checked

unfoldable pub is_post : Request → Bool
is_post r = str_eq r.method (codes "POST")

unfoldable pub public : Challenge → PublicChallenge
public c = record { hash = c.hash; name = c.name; value = c.value }

-- The handler of /api/v1/challenges.
unfoldable pub handle_list : Store → Response
handle_list s = record { status = 200; body = challenge_list (map public (list_challenges s)) }

-- The handler of /api/v1/scoreboard.
unfoldable pub handle_scoreboard : Store → Response
handle_scoreboard s = record { status = 200; body = scoreboard (results s) }

-- The handler of /api/v1/standings.
unfoldable pub handle_standings : Store → Response
handle_standings s = record { status = 200; body = ranking (standings s) }

-- hashPathRe.FindStringSubmatch(path)[1]
unfoldable pub hash_of_path : Bytes → Option Bytes
unfolding cut_prefix is_hex_digit all is_empty
hash_of_path path = elim (cut_prefix path (codes "/api/v1/challenges/hash/")) [
  | none ↦ none
  | some rest ↦ if not (is_empty rest) && all is_hex_digit rest then some rest else none
]

-- The handler of /api/v1/challenges/hash/.
unfoldable pub handle_hash : Store → Request → Response
handle_hash s r = elim (hash_of_path r.path) [
  | none ↦ record { status = 404; body = not_found_page }
  | some hash ↦ elim (get s hash) [
    | none ↦ record { status = 404; body = unsuccessful }
    | some c ↦ record { status = 200; body = challenge (public c) }
  ]
]

-- status == http.StatusOK
unfoldable pub is_ok : ℤ → Bool
is_ok (ℤ.pos n) = n == 200
is_ok (ℤ.negsuc n) = false

module _ (json : Codec) (out : Written) (now : Bytes) (decoder : Decoder) where
  -- The handler of /api/v1/challenges/attempt.
  unfoldable pub handle_attempt : Store → Request → Store × Response
  handle_attempt s r =
      if not (is_post r)
      then (s, record { status = 405; body = method_not_allowed })
      else elim (decoder.attempt r.body) [
        | none ↦ (s, record { status = 400; body = unsuccessful })
        | some req ↦
            let (s', result) = grade json out now s req.challenge_hash req.submission r.user in
            if not result.known then (s', record { status = 404; body = unsuccessful }) else (
              s',
              record {
                status = 200;
                body = if result.correct then attempt_correct else attempt_incorrect;
              },
            )
      ]

  -- The end of the verify handler, once the page is fetched.
  unfoldable pub judge :
      (Bytes → Option (Bytes → Bool))
      → Store
      → Challenge
      → VerifySpec
      → Bytes
      → Fetched
      → Store × Response
  judge compile s c v user (fetch_error message) =
      (s, record { status = 200; body = verify_unreachable message })
  judge compile s c v user (page status content) =
      if not (is_ok status) || not (spec_matches compile v content)
      then (s, record { status = 200; body = verify_incorrect status })
      else (commit_solve json out now s c.hash user, record { status = 200; body = verify_correct })

  -- The verify handler up to the fetch. The fetcher is nil without a cluster; port and path are the
  -- challenge's, and the request only names the Pod.
  unfoldable pub check_verify : Option (Bytes → ℤ → Bytes → Fetched) → Store → Request → Checked
  check_verify fetcher s r =
      if not (is_post r) then refused 405 method_not_allowed else elim fetcher [
        | none ↦ refused 503 unavailable
        | some fetch ↦ elim (decoder.verify r.body) [
          | none ↦ refused 400 unsuccessful
          | some req ↦ elim (get s req.challenge_hash) [
            | none ↦ refused 404 unsuccessful
            | some c ↦ elim c.verify [
              | none ↦ refused 400 no_assertion
              | some v ↦
                  if not (assertive (some v))
                  then refused 400 no_assertion
                  else fetched c v (fetch req.pod v.port v.path)
            ]
          ]
        ]
      ]

  unfoldable pub conclude :
      (Bytes → Option (Bytes → Bool)) → Store → Request → Checked → Store × Response
  conclude compile s r (refused status body) = (s, record { status = status; body = body })
  conclude compile s r (fetched c v f) = judge compile s c v r.user f

  -- The handler of /api/v1/challenges/verify.
  unfoldable pub handle_verify :
      (Bytes → Option (Bytes → Bool))
      → Option (Bytes → ℤ → Bytes → Fetched)
      → Store
      → Request
      → Store × Response
  handle_verify compile fetcher s r = conclude compile s r (check_verify fetcher s r)

  -- The routes of the mux: an exact path wins over the subtree of the hashes.
  unfoldable pub route :
      (Bytes → Option (Bytes → Bool))
      → Option (Bytes → ℤ → Bytes → Fetched)
      → Store
      → Request
      → Store × Response
  route compile fetcher s r =
      if str_eq r.path (codes "/api/v1/challenges")
      then (s, handle_list s)
      else if str_eq r.path (codes "/api/v1/scoreboard")
      then (s, handle_scoreboard s)
      else if str_eq r.path (codes "/api/v1/standings")
      then (s, handle_standings s)
      else if str_eq r.path (codes "/api/v1/challenges/attempt")
      then handle_attempt s r
      else if str_eq r.path (codes "/api/v1/challenges/verify")
      then handle_verify compile fetcher s r
      else elim (cut_prefix r.path (codes "/api/v1/challenges/hash/")) [
        | none ↦ (s, record { status = 404; body = not_found_page })
        | some _ ↦ (s, handle_hash s r)
      ]

  -- withCORS: the origin that is allowed, and the answer; a preflight stops here.
  unfoldable pub with_cors :
      (Bytes → Option (Bytes → Bool))
      → Option (Bytes → ℤ → Bytes → Fetched)
      → Bytes
      → Store
      → Request
      → Store × Option Bytes × Response
  with_cors compile fetcher origin s r =
      let allowed : Option Bytes = if is_empty origin then none else some origin in
      if str_eq r.method (codes "OPTIONS")
      then (s, allowed, record { status = 204; body = no_content })
      else (let (s', answer) = route compile fetcher s r in (s', allowed, answer))
