-- ===== src/Tests/Dockershim.antt =====
-- The Docker API on a cluster that is a list of Pods.
use training_platform.Shared.{
  Bytes, codes, ℕ, ◌≡◌, refl, Bool, true, false, ◌||◌, none, some, List, [], ◌∷◌, str_eq, ◌==◌,
  arith, if◌then◌else◌, is_empty,
}
use training_platform.Shared.Table.{lookup}
use training_platform.Shared.Dashes.{trim_dashes, is_label_char}
use training_platform.Session.Api.{not_found, already_exists, fail}
use training_platform.Dockershim.Names.{sanitize_k8s_name, label_char}
use training_platform.Dockershim.Names.Labels.{is_dns_label}
use training_platform.Dockershim.Frames.Demux.{demux, write_all, demux-write_all}
use training_platform.Dockershim.Shim.{
  CreateRequest, Shim, new_shim, PodSpec, ShimApi, k8s_pod_name, pod_of, members_of, forgets,
  connects, run_sections,
}
use training_platform.Dockershim.Server.{handle_container_remove, handle_container_inspect}
use training_platform.Dockershim.Wire.{
  DockerRequest, Surroundings, no_body, container, docker_reply, unmanaged_json,
}
use training_platform.Dockershim.Server.Lifecycle.{serve_all, serve_all_lem}
use training_platform.Dockershim.Server.Removal.{inspect-remove}
use training_platform.Tests.Samples.{sample_sha1}

unfoldable has_pod : List PodSpec → Bytes → Bool
has_pod [] name = false
has_pod (p ∷ ps) name = str_eq p.name name || has_pod ps name

unfoldable without : List PodSpec → Bytes → List PodSpec
without [] name = []
without (p ∷ ps) name = let rest = without ps name in if str_eq p.name name then rest else p ∷ rest

abbrev sample_api : ShimApi
sample_api = record {
  Cluster = List PodSpec;
  create_pod = λ c p. if has_pod c p.name then (c, some already_exists) else (p ∷ c, none);
  delete_pod = λ c name. (without c name, if has_pod c name then none else some not_found);
  get_namespace = λ c. none;
  create_namespace = λ c. (c, none);
}

abbrev runes : Bytes → List ℕ
runes s = s

abbrev console : CreateRequest
console = record {
  image = codes "dind";
  cmd = [];
  entrypoint = codes "sh" ∷ [];
  tty = true;
  open_stdin = true;
  env = codes "A=1" ∷ [];
  labels = [];
  privileged = true;
  endpoints = codes "net" ∷ [];
}

abbrev quiet : Surroundings
quiet = record {
  uuid = codes "0123456789";
  get_pod = λ name. fail not_found;
  polls = λ name. [];
  is_hijacker = true;
  hijacks = true;
  logs = none;
  meanwhile = λ k. [];
}

abbrev post : Bytes → DockerRequest
post path = record {
  method = codes "POST";
  path = path;
  name_query = codes "ab_1";
  create_body = some console;
  exec_body = none;
  start_tty = false;
  network_name = [];
  connect_container = [];
}

-- Another request removes the container while a start creates its Pod.
abbrev disturbed : Surroundings
disturbed = record quiet { meanwhile = λ k. if k == 2 then forgets (codes "ab_1") ∷ [] else [] }

abbrev two_requests : List (Surroundings × DockerRequest)
two_requests =
    (quiet, post (codes "/v1.44/containers/create"))
    ∷ (disturbed, post (codes "/containers/ab_1/start"))
    ∷ []

serve_all_lem_example :
    let s = (serve_all sample_sha1 runes sample_api two_requests new_shim []).0 in
    let name = (k8s_pod_name sample_sha1 runes s (codes "ab_1")).1 in
    (name ≡ sanitize_k8s_name sample_sha1 runes (codes "ab_1")) × (is_dns_label name ≡ true)
serve_all_lem_example = serve_all_lem sample_sha1 runes sample_api two_requests [] (codes "ab_1")

demux-write_all_example :
    demux 2 (write_all ((1, codes "out") ∷ (2, codes "err") ∷ []))
    ≡ some ((1, codes "out") ∷ (2, codes "err") ∷ [])
demux-write_all_example =
    demux-write_all ((1, codes "out") ∷ (2, codes "err") ∷ []) 2 (omega arith, (omega arith, tt))
      (omega arith)

no_names :
    (d n : Bytes) → lookup d new_shim.pod_name ≡ some n → n ≡ sanitize_k8s_name sample_sha1 runes d
unfolding new_shim lookup
no_names d n e = cc

-- A container that runs in one network.
abbrev running_shim : Shim
running_shim = record new_shim {
  pending = (codes "ab", console) ∷ [];
  created = (codes "ab", true) ∷ [];
  net_members = (codes "ab", (codes "net", true) ∷ []) ∷ [];
}

abbrev one_pod : List PodSpec
one_pod = pod_of (codes "ab") console ∷ []

pod_deleted :
    (sample_api.delete_pod one_pod (sanitize_k8s_name sample_sha1 runes (codes "ab"))).1 ≡ none
unfolding has_pod sanitize_k8s_name str_eq pod_of is_empty trim_dashes label_char is_label_char
pod_deleted = refl

-- Another request connects the container to a network while its Pod is deleted.
abbrev connecting : Surroundings
connecting = record quiet { meanwhile = λ k. connects (codes "ab") (codes "more") ∷ [] }

inspect-remove_example :
    let (s', c', removed) =
      handle_container_remove sample_sha1 runes sample_api connecting
        (codes "ab")
        running_shim
        one_pod in
    let networks =
      (run_sections sample_sha1 runes (connecting.meanwhile 1) running_shim).net_members in
    (removed ≡ docker_reply 204 no_body)
    × (handle_container_inspect sample_sha1 runes connecting (codes "ab") s' ≡ (
      s',
      docker_reply 200
          (container (unmanaged_json sample_sha1 (codes "ab") (members_of networks (codes "ab")))),
    ))
inspect-remove_example =
    inspect-remove sample_sha1 runes sample_api connecting (codes "ab") running_shim one_pod
      no_names pod_deleted
