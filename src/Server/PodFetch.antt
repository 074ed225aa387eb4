-- ===== src/Server/PodFetch.antt =====
-- internal/server/podfetch.go: the fetch of a learner's page for the verify handler. The HTTP client
-- is the parameter `dial`.
use training_platform.Shared.{
  is_empty, Bytes, codes, ℕ, ◌≡◌, refl, Bool, true, false, not, ◌&&◌, ◌||◌, Option, none, some, [],
  ◌∷◌, ◌++◌, arith, all, take, leb, ◌==◌, if◌then◌else◌, cut_prefix, inl, inr,
}
use training_platform.Shared.Int.{ℤ, pos, ◌≤ℤ◌, ltb_ℤ}
use training_platform.Scoring.Challenge.{Challenge, VerifySpec, spec_matches}
use training_platform.Scoring.Journal.{Codec, Written}
use training_platform.Scoring.Store.{Store, get, commit_solve}
use training_platform.Scoring.Http.{
  Request, VerifyRequest, Decoder, is_post, Fetched, page, fetch_error, verify_correct,
  handle_verify, is_ok,
}
use training_platform.Scoring.Http.Verify.{IsPassing, IsChecked, handle_verify_lem}
use training_platform.Session.Api.{Pod, PodApi, ApiResult, ok, fail}
use training_platform.Session.Engine.{status}
use training_platform.Session.Pods.{Engine, status_of, PodStatus, is_ready}

-- [a-z0-9]
unfoldable pub is_name_byte : ℕ → Bool
is_name_byte c = (leb b'a' c && leb c b'z') || (leb b'0' c && leb c b'9')

-- termPodRe.MatchString
unfoldable pub is_pod_name : Bytes → Bool
unfolding all is_name_byte
is_pod_name [] = false
is_pod_name (c ∷ s) = is_name_byte c && all (λ d. is_name_byte d || (d == b'-')) s

-- What becomes of a GET: an error, an error in its body, or a page.
pub data Dialed : Type 0 where
  no_reply : Bytes → Dialed
  broken_body : ℤ → Bytes → Dialed
  replied : ℤ → Bytes → Dialed

-- The cap on the page.
abbrev pub max_verify_body : ℕ
max_verify_body = 1048576

-- if !strings.HasPrefix(path, "/") { path = "/" + path }
unfoldable pub rooted : Bytes → Bytes
unfolding cut_prefix
rooted path = elim (cut_prefix path (codes "/")) [ none ↦ b'/' ∷ path | some _ ↦ path ]

-- The results of FetchPod from those of the HTTP client.
unfoldable pub read_page : Dialed → Fetched
read_page (no_reply e) = fetch_error (codes "could not reach the page in your session: " ++ e)
read_page (broken_body code e) = fetch_error e
read_page (replied code body) = page code (take max_verify_body body)

module _ (api : PodApi) (e : Engine) (dial : Bytes → ℤ → Bytes → Dialed) where
  -- FetchPod, once the name and the port are checked.
  unfoldable pub fetch_ready : ApiResult PodStatus → ℤ → Bytes → Fetched
  fetch_ready (fail x) port path = fetch_error (codes "no such session")
  fetch_ready (ok st) port path =
      if not st.is_up || is_empty st.ip
      then fetch_error (codes "session not ready")
      else read_page (dial st.ip port (rooted path))

  -- FetchPod
  unfoldable pub fetch_pod : Bytes → api.Cluster → Bytes → ℤ → Bytes → Fetched
  fetch_pod ns c pod port path =
      if not (is_pod_name pod)
      then fetch_error (codes "invalid pod name")
      else if not (ltb_ℤ (pos 0) port) || ltb_ℤ (pos 65535) port
      then fetch_error (codes "invalid port")
      else fetch_ready (status api e ns pod c) port path

  -- A page of a Pod that is up in the namespace, got at this port and path.
  abbrev pub IsServed : Bytes → api.Cluster → Bytes → ℤ → Bytes → ℤ → Bytes → Type 0
  IsServed ns c pod port path code content =
      (p : Pod) × (body : Bytes) × (api.get_pod c ns pod ≡ ok p)
      × (is_ready p ≡ true)
      × (is_pod_name pod ≡ true)
      × (pos 1 ≤ℤ port)
      × (port ≤ℤ pos 65535)
      × (dial p.ip port (rooted path) ≡ replied code body)
      × (content ≡ take max_verify_body body)

  status_ready :
      (ns pod : Bytes) (c : api.Cluster) (port : ℤ) (path content : Bytes) (code : ℤ)
      → fetch_ready (status api e ns pod c) port path ≡ page code content
      → (p : Pod) × (api.get_pod c ns pod ≡ ok p)
        × (is_ready p ≡ true)
        × (read_page (dial p.ip port (rooted path)) ≡ page code content)
  unfolding status fetch_ready status_of
  status_ready ns pod c port path content code h = go (api.get_pod c ns pod) refl h
    where
      go :
          (r : ApiResult Pod)
          → api.get_pod c ns pod ≡ r
          → fetch_ready (elim r [ fail x ↦ fail x | ok p ↦ ok (status_of pod p) ]) port path
            ≡ page code content
          → (p : Pod) × (api.get_pod c ns pod ≡ ok p)
            × (is_ready p ≡ true)
            × (read_page (dial p.ip port (rooted path)) ≡ page code content)
      go (fail x) q k = cc
      go (ok p) q k = (p, q, ground arith, ground arith)

  read_page_lem :
      (d : Dialed) (code : ℤ) (content : Bytes)
      → read_page d ≡ page code content
      → (body : Bytes) × (d ≡ replied code body) × (content ≡ take max_verify_body body)
  unfolding read_page
  read_page_lem (no_reply x) code content h = cc
  read_page_lem (broken_body k x) code content h = cc
  read_page_lem (replied k body) code content h = (body, cc, cc)

  fetch_pod_lem :
      (ns pod path content : Bytes) (c : api.Cluster) (port code : ℤ)
      → fetch_pod ns c pod port path ≡ page code content
      → IsServed ns c pod port path code content
  unfolding fetch_pod
  fetch_pod_lem ns pod path content c port code h =
      let up = status_ready ns pod c port path content code (ground arith) in
      let read = read_page_lem (dial up.0.ip port (rooted path)) code content up.3 in
      (up.0, read.0, up.1, up.2, ground arith, ground arith, ground arith, read.1, read.2)

  -- The fetcher that the server gives to the scoring API.
  abbrev pub pod_fetcher : Bytes → api.Cluster → Option (Bytes → ℤ → Bytes → Fetched)
  pod_fetcher ns c = some (fetch_pod ns c)

  is_ok_lem : (code : ℤ) → is_ok code ≡ true → code ≡ pos 200
  unfolding is_ok
  is_ok_lem code h = ground arith

  module _ (json : Codec) (out : Written) (now : Bytes) (decoder : Decoder)
      (compile : Bytes → Option (Bytes → Bool)) where
    -- What a verified solve rests on: a POST whose body names a challenge of the store and a Pod, an
    -- assertion that this challenge declares, and a page of that Pod at the challenge's port and path.
    abbrev pub IsVerified : Bytes → api.Cluster → Store → Request → Store → Type 0
    IsVerified ns c s r after =
        (req : VerifyRequest) × (ch : Challenge) × (v : VerifySpec) × (content : Bytes) × (is_post r
          ≡ true)
        × (decoder.verify r.body ≡ some req)
        × (get s req.challenge_hash ≡ some ch)
        × (ch.verify ≡ some v)
        × IsServed ns c req.pod v.port v.path (pos 200) content
        × (spec_matches compile v content ≡ true)
        × (after ≡ commit_solve json out now s ch.hash r.user)

    page-IsVerified :
        (ns : Bytes) (c : api.Cluster) (s : Store) (r : Request) (after : Store) (ch : Challenge)
        (v : VerifySpec) (f : Fetched)
        → IsChecked json out now decoder compile (pod_fetcher ns c) s r ch v f
        → IsPassing json out now decoder compile v f
        → after ≡ commit_solve json out now s ch.hash r.user
        → IsVerified ns c s r after
    page-IsVerified ns c s r after ch v (fetch_error message) k h same = absurd h
    page-IsVerified ns c s r after ch v (page code content) k h same =
        let two_hundred = is_ok_lem code h.0 in
        let got : fetch_pod ns c k.request.pod v.port v.path ≡ page (pos 200) content =
          ground (arith, k.fetcher_there, k.page_of_pod, two_hundred) in
        (
          k.request,
          ch,
          v,
          content,
          k.posted,
          k.decoded,
          k.registered,
          k.declared,
          fetch_pod_lem ns k.request.pod v.path content c v.port (pos 200) got,
          h.1,
          same,
        )

    -- A verify request that is answered "correct" is a POST whose body names a challenge that the
    -- store has under that hash, and a Pod: the Pod's name fits the pattern, it was running in the
    -- namespace with an address, a GET of the port that this challenge declares, between 1 and 65535,
    -- and of the path that it declares, rooted, had status 200, and the first MiB of the page satisfies
    -- the assertion of the challenge, which is what is recorded for the request's user.
    pub handle_verify-fetch_pod :
        (ns : Bytes) (c : api.Cluster) (s : Store) (r : Request)
        → (handle_verify json out now decoder compile (pod_fetcher ns c) s r).1.body
          ≡ verify_correct
        → IsVerified ns c s r (handle_verify json out now decoder compile (pod_fetcher ns c) s r).0
    handle_verify-fetch_pod ns c s r h =
        elim (handle_verify_lem json out now decoder compile (pod_fetcher ns c) s r) [
          | inl (bad, _) ↦ absurd (bad h)
          | inr (_, (ch, v, f, k, pass, same)) ↦
              page-IsVerified ns c s r
                (handle_verify json out now decoder compile (pod_fetcher ns c) s r).0 ch v f k pass
                same
        ]
