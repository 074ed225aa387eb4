-- ===== src/Dockershim/Wire.antt =====
-- internal/dockershim/server.go and types.go: requests, their routes, and answers. What the
-- environment answers while a request is handled is `Surroundings`.
use training_platform.Shared.{
  Bytes, codes, ℕ, Bool, true, false, not, ◌&&◌, Option, none, some, List, [], ◌∷◌, map, all, leb,
  is_empty, str_eq, cut, cut_prefix, if◌then◌else◌,
}
use training_platform.Shared.Decimal.{is_digit}
use training_platform.Shared.Table.{Table, StringSet}
use training_platform.Session.Api.{ApiResult}
use training_platform.Dockershim.Names.{Sha1, fake_ip_for}
use training_platform.Dockershim.Shim.{CreateRequest, PodView, Section}

-- A request: its method, the path without the version prefix, the query value `name`, and what
-- encoding/json makes of its body: `none` is an error, and a missing text is empty.
pub record DockerRequest : Type 0 where
  pub method : Bytes
  pub path : Bytes
  pub name_query : Bytes
  pub create_body : Option CreateRequest
  pub exec_body : Option (List Bytes × Bool)
  pub start_tty : Bool
  pub network_name : Bytes
  pub connect_container : Bytes

-- uuid.NewString, a Get and the polls of a Pod by its name, the two steps of a hijack, and the reads
-- of a log stream, if it opens; and what other requests do to the shim before the request takes the
-- lock for the first time (0), and each time that it lets go of it on its way (1, 2).
pub record Surroundings : Type 0 where
  pub uuid : Bytes
  pub get_pod : Bytes → ApiResult PodView
  pub polls : Bytes → List (ApiResult PodView)
  pub is_hijacker : Bool
  pub hijacks : Bool
  pub logs : Option (List Bytes)
  pub meanwhile : ℕ → List Section

-- type containerJSON struct, the fields that are set.
pub record ContainerJson : Type 0 where
  pub id : Bytes
  pub created_at : Bytes
  pub name : Bytes
  pub image : Bytes
  pub tty : Bool
  pub status : Bytes
  pub running : Bool
  pub ip_address : Bytes
  pub networks : Table Bytes

pub data DockerBody : Type 0 where
  no_body page_not_found ping_text version_info error_message : DockerBody
  container_id exec_id exec_state network_id log_text : Bytes → DockerBody
  container : ContainerJson → DockerBody
  attached : Bytes → DockerBody
  executes : Bytes → List Bytes → Bool → DockerBody

pub record DockerResponse : Type 0 where
  pub status : ℕ
  pub body : DockerBody

abbrev pub docker_reply : ℕ → DockerBody → DockerResponse
docker_reply status body = record { status = status; body = body }

abbrev pub docker_not_found : DockerResponse
docker_not_found = docker_reply 404 page_not_found

abbrev pub docker_error : ℕ → DockerResponse
docker_error status = docker_reply status error_message

-- A path of one or two parts behind a prefix: /containers/{id} and /containers/{id}/{action}.
pub data DockerRoute : Type 0 where
  bare : Bytes → DockerRoute
  acted : Bytes → Bytes → DockerRoute
  unrouted : DockerRoute

unfoldable pub is_action_char : ℕ → Bool
is_action_char c = leb b'a' c && leb c b'z'

unfoldable pub parse_route : Bytes → Bytes → DockerRoute
parse_route prefix path = elim (cut_prefix path prefix) [
  | none ↦ unrouted
  | some s ↦
      let (id, tail) = cut b'/' s in
      if is_empty id then unrouted else elim tail [
        | none ↦ bare id
        | some action ↦
            if not (is_empty action) && all is_action_char action then acted id action else unrouted
      ]
]

-- versionPrefixRe.ReplaceAllString(path, "")
unfoldable pub drop_digits : Bytes → Bytes
drop_digits [] = []
drop_digits (c ∷ s) = let rest = drop_digits s in if is_digit c then rest else c ∷ s

unfoldable pub digits_then : Bytes → Option Bytes
digits_then [] = none
digits_then (c ∷ s) = if is_digit c then some (drop_digits s) else none

unfoldable pub strip_version_prefix : Bytes → Bytes
strip_version_prefix path = elim (cut_prefix path (codes "/v")) [
  | none ↦ path
  | some s ↦ elim (digits_then s) [
    | none ↦ path
    | some t ↦ elim (cut_prefix t (codes ".")) [
      | none ↦ path
      | some u ↦ elim (digits_then u) [ none ↦ path | some rest ↦ rest ]
    ]
  ]
]

-- What handleContainerInspect answers for a name that is not managed, and for a Pod.
unfoldable pub unmanaged_json : Sha1 → Bytes → StringSet → ContainerJson
unmanaged_json sha id members = record {
  id = id;
  created_at = [];
  name = b'/' ∷ id;
  image = [];
  tty = false;
  status = codes "running";
  running = true;
  ip_address = [];
  networks = map (λ (net, _). (net, fake_ip_for sha id net)) members;
}

unfoldable pub pod_json : Bytes → StringSet → PodView → ContainerJson
pod_json id members pod = record {
  id = id;
  created_at = pod.created_at;
  name = b'/' ∷ id;
  image = pod.image;
  tty = pod.tty;
  status = pod.phase;
  running = str_eq pod.phase (codes "Running");
  ip_address = pod.pod_ip;
  networks = map (λ (net, _). (net, pod.pod_ip)) members;
}
