-- ===== src/Server/Creation.antt =====
-- internal/server/server.go: the endpoint that boots an instance, /api/v1/sessions.
use training_platform.Shared.{
  Bytes, codes, ℕ, ◌≡◌, not, Option, none, some, List, ◌∷◌, arith, str_eq, str_eq_iff,
  if◌then◌else◌,
}
use training_platform.Shared.Int.{ℤ}
use training_platform.Scoring.Http.{Request}
use training_platform.Session.Api.{Pod, PodApi, PodLaws, ApiResult, fail, not_found}
use training_platform.Session.Pods.{
  Engine, Instance, EngineError, Result, Waited, err, done, not_started,
}
use training_platform.Session.Engine.{new_ephemeral_instance}
use training_platform.Session.Engine.Startup.{
  Some, ShowsReady, failed_start_leaves_none, new_ephemeral_instance-ready,
}

pub data CreateBody : Type 0 where
  no_engine no_post : CreateBody
  start_error : EngineError → CreateBody
  started : Instance → CreateBody

pub record CreateReply : Type 0 where
  pub status : ℕ
  pub body : CreateBody

-- The answer to the result of NewEphemeralInstance.
unfoldable pub create_reply : Result Instance → CreateReply
create_reply (err x) = record { status = 502; body = start_error x }
create_reply (done i) = record { status = 201; body = started i }

module _ (api : PodApi) where
  -- The handler of /api/v1/sessions, for a new Pod name. `image` is the body's, empty if it has none,
  -- and the wait for the Pod is what its polls return.
  unfoldable pub handle_create :
      Option Engine
      → ℤ
      → Bytes
      → Bytes
      → Request
      → Bytes
      → ApiResult Pod
      → List (ApiResult Pod)
      → (api.Cluster → api.Cluster)
      → api.Cluster
      → api.Cluster × CreateReply
  handle_create none now ns name r image first polls meanwhile c =
      (c, record { status = 503; body = no_engine })
  handle_create (some e) now ns name r image first polls meanwhile c =
      if not (str_eq r.method (codes "POST"))
      then (c, record { status = 405; body = no_post })
      else (let (c', result) =
            new_ephemeral_instance api e now ns name image first polls meanwhile c in
          (c', create_reply result))

  module _ (e : Engine) (now : ℤ) (ns name : Bytes) (r : Request) (image : Bytes)
      (first : ApiResult Pod) (polls : List (ApiResult Pod)) (meanwhile : api.Cluster → api.Cluster)
      (c : api.Cluster) where
    -- An instance is answered only to a POST, under the new name, and with the address at which
    -- some poll of the wait showed its Pod running with no fatal state.
    pub handle_create-started :
        (i : Instance)
        → (handle_create (some e) now ns name r image first polls meanwhile c).1.body ≡ started i
        → (r.method ≡ codes "POST") × (i.name ≡ name) × Some (ShowsReady i.ip) (first ∷ polls)
    unfolding handle_create create_reply
    handle_create-started i h =
        let made : (new_ephemeral_instance api e now ns name image first polls meanwhile c).1
            ≡ done i =
          ground arith in
        let (named, seen) =
          new_ephemeral_instance-ready api e now ns name image first polls meanwhile c i made in
        (ground (arith, str_eq_iff r.method (codes "POST")), named, seen)

    -- When the answer is that the Pod did not start, and deletes succeed, no Pod of the new name is
    -- left, whatever happened to the cluster during the wait.
    pub handle_create-failed :
        (laws : PodLaws api) (w : Waited)
        → (handle_create (some e) now ns name r image first polls meanwhile c).1.body
          ≡ start_error (not_started w)
        → ((d : api.Cluster) → (api.delete_pod d ns name).1 ≡ none)
        → api.get_pod (handle_create (some e) now ns name r image first polls meanwhile c).0 ns name
          ≡ fail not_found
    unfolding handle_create create_reply
    handle_create-failed laws w h ds =
        let result = new_ephemeral_instance api e now ns name image first polls meanwhile c in
        let made : result.1 ≡ err (not_started w) = ground arith in
        ground (
          arith,
          failed_start_leaves_none api laws e now ns name image first polls meanwhile c w made ds,
        )
