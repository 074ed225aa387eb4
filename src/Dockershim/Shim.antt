-- ===== src/Dockershim/Shim.antt =====
-- internal/dockershim/k8s.go and types.go: the state of the shim and what it does to Pods. The
-- Kubernetes API server is the parameter `ShimApi`: a call takes the cluster to what it is when the
-- call returns. A method that lets go of the shim's lock on its way takes the sections of other
-- requests that run meanwhile.
pub mod Invariant
use training_platform.Shared.{
  Bytes, codes, ℕ, Bool, true, false, not, Option, none, some, List, [], ◌∷◌, ◌++◌, is_empty,
  if◌then◌else◌,
}
use training_platform.Shared.Table.{Table, StringSet, lookup, insert, remove, contains}
use training_platform.Session.Api.{ApiError, not_found, other, ApiResult, ok, fail}
use training_platform.Dockershim.Names.{Sha1, sanitize_k8s_name, env_from_docker_format}

-- type createContainerRequest struct; `endpoints` has the keys of EndpointsConfig.
pub record CreateRequest : Type 0 where
  pub image : Bytes
  pub cmd : List Bytes
  pub entrypoint : List Bytes
  pub tty : Bool
  pub open_stdin : Bool
  pub env : List Bytes
  pub labels : Table Bytes
  pub privileged : Bool
  pub endpoints : List Bytes

-- type execEntry struct
pub record ExecEntry : Type 0 where
  pub container_id : Bytes
  pub cmd : List Bytes
  pub tty : Bool

-- type shim struct, without its connections to the cluster.
pub record Shim : Type 0 where
  pub pending : Table CreateRequest
  pub created : StringSet
  pub pod_name : Table Bytes
  pub execs : Table ExecEntry
  pub net_members : Table StringSet

-- The maps that newShim makes.
unfoldable pub new_shim : Shim
new_shim = record { pending = []; created = []; pod_name = []; execs = []; net_members = [] }

-- The Pod that startContainer asks for, with its one container; RestartPolicy is always Never.
pub record PodSpec : Type 0 where
  pub name : Bytes
  pub labels : Table Bytes
  pub image : Bytes
  pub command : List Bytes
  pub tty : Bool
  pub stdin : Bool
  pub env : List (Bytes × Bytes)
  pub privileged : Bool

-- What a Get of a Pod shows the handlers; `created_at` is formatted.
pub record PodView : Type 0 where
  pub pod_ip : Bytes
  pub phase : Bytes
  pub created_at : Bytes
  pub image : Bytes
  pub tty : Bool

-- The calls that change the shim's namespace, and the Get of the namespace itself.
pub record ShimApi : Type 1 where
  pub Cluster : Type 0
  pub create_pod : Cluster → PodSpec → Cluster × Option ApiError
  pub delete_pod : Cluster → Bytes → Cluster × Option ApiError
  pub get_namespace : Cluster → Option ApiError
  pub create_namespace : Cluster → Cluster × Option ApiError

-- ensureNamespace: the cluster, and the error, if there is one.
unfoldable pub ensure_namespace : (api : ShimApi) → api.Cluster → api.Cluster × Option ApiError
ensure_namespace api c = elim (api.get_namespace c) [
  | none ↦ (c, none)
  | some not_found ↦ api.create_namespace c
  | some e ↦ (c, some e)
]

-- newShim, once the client is configured: `none` is its error.
unfoldable pub start_shim : (api : ShimApi) → api.Cluster → api.Cluster × Option Shim
start_shim api c =
    let (c', err) = ensure_namespace api c in
    (c', elim err [ none ↦ some new_shim | some _ ↦ none ])

-- m[k] of a map of maps, nil when missing.
unfoldable pub members_of : Table StringSet → Bytes → StringSet
members_of m k = elim (lookup k m) [ none ↦ [] | some s ↦ s ]

unfoldable pub insert_all : List Bytes → StringSet → StringSet
insert_all [] s = s
insert_all (k ∷ ks) s = insert_all ks (insert k true s)

-- The Pod of a container.
unfoldable pub pod_of : Bytes → CreateRequest → PodSpec
pod_of pod_name spec = record {
  name = pod_name;
  labels = (codes "app.kubernetes.io/managed-by", codes "docker-k8s-shim-poc") ∷ [];
  image = spec.image;
  command = spec.entrypoint ++ spec.cmd;
  tty = spec.tty;
  stdin = spec.open_stdin;
  env = env_from_docker_format spec.env;
  privileged = spec.privileged;
}

-- What startContainer notes once the Pod is created.
unfoldable pub note_created : Bytes → CreateRequest → Shim → Shim
note_created docker_name spec s =
    let marked = record s { created = insert docker_name true s.created } in
    elim spec.endpoints [
      | [] ↦ marked
      | net ∷ nets ↦ record marked {
        net_members =
            insert docker_name (insert_all (net ∷ nets) (members_of s.net_members docker_name))
              s.net_members;
      }
    ]

-- isManaged
unfoldable pub is_managed : Shim → Bytes → Bool
is_managed s docker_name = contains s.created docker_name

-- networkConnect
unfoldable pub network_connect : Bytes → Bytes → Shim → Shim
network_connect docker_name network_name s = record s {
  net_members =
      insert docker_name (insert network_name true (members_of s.net_members docker_name))
        s.net_members;
}

-- handleContainerRemove, once the Pod is deleted.
unfoldable pub forget_container : Bytes → Shim → Shim
forget_container id s = record s { pending = remove id s.pending; created = remove id s.created }

-- The sections of the code that change the shim, each under its lock from one end to the other:
-- those of k8sPodName, handleContainerCreate, handleExecCreate, startContainer, networkConnect and
-- handleContainerRemove. Between two of them any others may run.
pub data Section : Type 0 where
  names_pod : Bytes → Section
  adds_pending : Bytes → CreateRequest → Section
  adds_exec : Bytes → ExecEntry → Section
  notes_created : Bytes → CreateRequest → Section
  connects : Bytes → Bytes → Section
  forgets : Bytes → Section

module _ (sha : Sha1) (lower_runes : Bytes → List ℕ) where
  -- k8sPodName: the shim with the name cached, and the name.
  unfoldable pub k8s_pod_name : Shim → Bytes → Shim × Bytes
  k8s_pod_name s docker_name = elim (lookup docker_name s.pod_name) [
    | some n ↦ (s, n)
    | none ↦
        let n = sanitize_k8s_name sha lower_runes docker_name in
        (record s { pod_name = insert docker_name n s.pod_name }, n)
  ]

  unfoldable pub run_section : Section → Shim → Shim
  run_section (names_pod d) s = (k8s_pod_name s d).0
  run_section (adds_pending d spec) s = record s { pending = insert d spec s.pending }
  run_section (adds_exec id entry) s = record s { execs = insert id entry s.execs }
  run_section (notes_created d spec) s = note_created d spec s
  run_section (connects d net) s = network_connect d net s
  run_section (forgets d) s = forget_container d s

  -- What other requests do to the shim while the lock is free.
  unfoldable pub run_sections : List Section → Shim → Shim
  run_sections [] s = s
  run_sections (x ∷ xs) s = run_sections xs (run_section x s)

  module _ (api : ShimApi) where
    -- startContainer: the shim, the cluster, and whether it returned an error. The lock is free
    -- between the look for the spec and the look for the name (1), and while the API server creates
    -- the Pod (2).
    unfoldable pub start_container :
        (ℕ → List Section) → Shim → api.Cluster → Bytes → Shim × api.Cluster × Bool
    start_container meanwhile s c docker_name = elim (lookup docker_name s.pending) [
      | none ↦ (s, c, true)
      | some spec ↦
          let (s', pod_name) = k8s_pod_name (run_sections (meanwhile 1) s) docker_name in
          let (c', err) = api.create_pod c (pod_of pod_name spec) in
          elim err [
            | some _ ↦ (s', c', true)
            | none ↦ (note_created docker_name spec (run_sections (meanwhile 2) s'), c', false)
          ]
    ]

    -- deletePod: a Pod that is missing is no error.
    unfoldable pub delete_pod : Shim → api.Cluster → Bytes → Shim × api.Cluster × Bool
    delete_pod s c docker_name =
        let (s', pod_name) = k8s_pod_name s docker_name in
        let (c', err) = api.delete_pod c pod_name in
        elim err [
          | none ↦ (s', c', false)
          | some not_found ↦ (s', c', false)
          | some _ ↦ (s', c', true)
        ]

-- waitForIP over the results of its polls, as many as come before the context is done.
unfoldable pub wait_for_ip : List (ApiResult PodView) → ApiResult PodView
wait_for_ip [] = fail (other (codes "context deadline exceeded"))
wait_for_ip (fail e ∷ polls) = fail e
wait_for_ip (ok pod ∷ polls) =
    let rest = wait_for_ip polls in if is_empty pod.pod_ip then rest else ok pod
