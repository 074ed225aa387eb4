-- ===== src/Dockershim/Server.antt =====
-- internal/dockershim/server.go: the handlers of the Docker Engine API and its routes; the streams
-- behind an upgrade are left out.
pub mod Steps
pub mod Lifecycle
pub mod Removal
use training_platform.Shared.{
  Bytes, codes, ℕ, Bool, true, false, not, ◌&&◌, ◌||◌, Option, none, some, List, [], ◌∷◌, ◌++◌, map,
  all, take, leb, is_empty, str_eq, cut, cut_prefix, if◌then◌else◌,
}
use training_platform.Shared.Decimal.{is_digit}
use training_platform.Shared.Table.{Table, StringSet, lookup, insert}
use training_platform.Session.Api.{not_found, ApiResult, ok, fail}
use training_platform.Dockershim.Names.{Sha1, fake_ip_for}
use training_platform.Dockershim.Frames.{copy_logs}
use training_platform.Dockershim.Shim.{
  CreateRequest, ExecEntry, Shim, PodView, ShimApi, members_of, k8s_pod_name, start_container,
  delete_pod, wait_for_ip, run_sections, is_managed, network_connect, forget_container,
}
use training_platform.Dockershim.Wire.{
  ContainerJson, DockerBody, DockerRequest, DockerResponse, DockerRoute, Surroundings, acted,
  attached, bare, container, container_id, digits_then, docker_error, docker_not_found,
  docker_reply, drop_digits, error_message, exec_id, exec_state, executes, is_action_char, log_text,
  network_id, no_body, page_not_found, parse_route, ping_text, pod_json, strip_version_prefix,
  unmanaged_json, unrouted, version_info,
}

-- handleContainerCreate
unfoldable pub handle_container_create : Surroundings → DockerRequest → Shim → Shim × DockerResponse
handle_container_create env r s =
    if not (str_eq r.method (codes "POST")) then (s, docker_not_found) else elim r.create_body [
      | none ↦ (s, docker_error 400)
      | some req ↦
          let id =
            if is_empty r.name_query then codes "pwd-poc-" ++ take 8 env.uuid else r.name_query in
          (record s { pending = insert id req s.pending }, docker_reply 201 (container_id id))
    ]

-- handleExecCreate
unfoldable pub handle_exec_create :
    Surroundings → DockerRequest → Bytes → Shim → Shim × DockerResponse
handle_exec_create env r id s = elim r.exec_body [
  | none ↦ (s, docker_error 400)
  | some (cmd, tty) ↦
      let entry : ExecEntry = record { container_id = id; cmd = cmd; tty = tty } in
      (record s { execs = insert env.uuid entry s.execs }, docker_reply 201 (exec_id env.uuid))
]

-- handleExecInspect
unfoldable pub handle_exec_inspect : Bytes → Shim → DockerResponse
handle_exec_inspect id s = elim (lookup id s.execs) [
  | none ↦ docker_error 404
  | some _ ↦ docker_reply 200 (exec_state id)
]

-- handleNetworksPrefix; other actions than these two are no match of the expression.
unfoldable pub handle_networks_prefix : DockerRequest → Shim → Shim × DockerResponse
handle_networks_prefix r s = elim (parse_route (codes "/networks/") r.path) [
  | acted name action ↦
      if str_eq action (codes "connect")
      then (network_connect r.connect_container name s, docker_reply 200 no_body)
      else if str_eq action (codes "disconnect")
      then (s, docker_reply 200 no_body)
      else (s, docker_not_found)
  | bare _ ↦
      if str_eq r.method (codes "DELETE")
      then (s, docker_reply 204 no_body)
      else (s, docker_not_found)
  | unrouted ↦ (s, docker_not_found)
]

-- The paths that ServeMux redirects to their subtree.
unfoldable pub is_subtree : Bytes → Bool
is_subtree path =
    str_eq path (codes "/containers")
    || str_eq path (codes "/exec")
    || str_eq path (codes "/networks")

module _ (sha : Sha1) (lower_runes : Bytes → List ℕ) where
  -- handleContainerInspect. The networks and `created` are read together; the lock is free between
  -- that and the look for the name.
  unfoldable pub handle_container_inspect : Surroundings → Bytes → Shim → Shim × DockerResponse
  handle_container_inspect env id s =
      let members = members_of s.net_members id in
      if not (is_managed s id)
      then (s, docker_reply 200 (container (unmanaged_json sha id members)))
      else (let s1 = run_sections sha lower_runes (env.meanwhile 1) s in
          let (s', pod_name) = k8s_pod_name sha lower_runes s1 id in
          elim (wait_for_ip (env.polls pod_name)) [
            | fail not_found ↦ (s', docker_error 404)
            | fail _ ↦ (s', docker_error 500)
            | ok pod ↦ (s', docker_reply 200 (container (pod_json id members pod)))
          ])

  -- handleContainerLogs
  unfoldable pub handle_container_logs : Surroundings → Bytes → Shim → Shim × DockerResponse
  handle_container_logs env id s =
      let (s', pod_name) = k8s_pod_name sha lower_runes s id in
      elim (env.get_pod pod_name) [
        | fail _ ↦ (s', docker_error 500)
        | ok pod ↦ elim env.logs [
          | none ↦ (s', docker_error 500)
          | some reads ↦ (s', docker_reply 200 (log_text (copy_logs pod.tty reads)))
        ]
      ]

  -- The hijack of handleContainerAttach and handleExecStart, and the name of the Pod behind it.
  unfoldable pub hijacked :
      Surroundings → (Bytes → DockerBody) → Bytes → Shim → Shim × DockerResponse
  hijacked env body id s =
      if not env.is_hijacker || not env.hijacks
      then (s, docker_error 500)
      else (let (s', pod_name) = k8s_pod_name sha lower_runes s id in
          (s', docker_reply 101 (body pod_name)))

  -- handleExecStart. The lock is free between the look for the entry and that for the name.
  unfoldable pub handle_exec_start :
      Surroundings → DockerRequest → Bytes → Shim → Shim × DockerResponse
  handle_exec_start env r id s = elim (lookup id s.execs) [
    | none ↦ (s, docker_error 404)
    | some entry ↦
        hijacked env (λ pod_name. executes pod_name entry.cmd (r.start_tty || entry.tty))
          entry.container_id (run_sections sha lower_runes (env.meanwhile 1) s)
  ]

  -- The switch of handleExecPrefix.
  unfoldable pub handle_exec_action :
      Surroundings → DockerRequest → Bytes → Bytes → Shim → Shim × DockerResponse
  handle_exec_action env r id action s =
      if str_eq action (codes "json")
      then (s, handle_exec_inspect id s)
      else if str_eq action (codes "start")
      then handle_exec_start env r id s
      else if str_eq action (codes "resize")
      then (s, docker_reply 200 no_body)
      else (s, docker_not_found)

  -- handleExecPrefix
  unfoldable pub handle_exec_prefix : Surroundings → DockerRequest → Shim → Shim × DockerResponse
  handle_exec_prefix env r s = elim (parse_route (codes "/exec/") r.path) [
    | acted id action ↦ handle_exec_action env r id action s
    | bare _ ↦ (s, docker_not_found)
    | unrouted ↦ (s, docker_not_found)
  ]

  module _ (api : ShimApi) where
    -- handleContainerStart
    unfoldable pub handle_container_start :
        Surroundings → Bytes → Shim → api.Cluster → Shim × api.Cluster × DockerResponse
    handle_container_start env id s c =
        let (s', c', failed) = start_container sha lower_runes api env.meanwhile s c id in
        (s', c', if failed then docker_error 500 else docker_reply 204 no_body)

    -- handleContainerStop
    unfoldable pub handle_container_stop :
        Bytes → Shim → api.Cluster → Shim × api.Cluster × DockerResponse
    handle_container_stop id s c =
        let (s', c', failed) = delete_pod sha lower_runes api s c id in
        (s', c', if failed then docker_error 500 else docker_reply 204 no_body)

    -- handleContainerRemove. The lock is free while the API server deletes the Pod.
    unfoldable pub handle_container_remove :
        Surroundings → Bytes → Shim → api.Cluster → Shim × api.Cluster × DockerResponse
    handle_container_remove env id s c =
        let (s', c', failed) = delete_pod sha lower_runes api s c id in
        if failed then (s', c', docker_error 500) else (
          forget_container id (run_sections sha lower_runes (env.meanwhile 1) s'),
          c',
          docker_reply 204 no_body,
        )

    -- A handler that makes no change of the cluster.
    abbrev pub keeping : api.Cluster → Shim × DockerResponse → Shim × api.Cluster × DockerResponse
    keeping c (s, answer) = (s, c, answer)

    -- The switch of handleContainersPrefix, the path for inspect first.
    unfoldable pub handle_action :
        Surroundings
        → DockerRequest
        → Bytes
        → Bytes
        → Shim
        → api.Cluster
        → Shim × api.Cluster × DockerResponse
    handle_action env r id action s c =
        if str_eq action (codes "json")
        then keeping c (handle_container_inspect env id s)
        else if str_eq action (codes "start")
        then handle_container_start env id s c
        else if str_eq action (codes "stop") || str_eq action (codes "kill")
        then handle_container_stop id s c
        else if str_eq action (codes "logs")
        then keeping c (handle_container_logs env id s)
        else if str_eq action (codes "exec")
        then keeping c (handle_exec_create env r id s)
        else if str_eq action (codes "attach")
        then keeping c (hijacked env attached id s)
        else if str_eq action (codes "resize")
        then (s, c, docker_reply 200 no_body)
        else (s, c, docker_not_found)

    -- handleContainersPrefix
    unfoldable pub handle_containers_prefix :
        Surroundings → DockerRequest → Shim → api.Cluster → Shim × api.Cluster × DockerResponse
    handle_containers_prefix env r s c = elim (parse_route (codes "/containers/") r.path) [
      | acted id action ↦ handle_action env r id action s c
      | bare id ↦
          if str_eq r.method (codes "DELETE")
          then handle_container_remove env id s c
          else (s, c, docker_not_found)
      | unrouted ↦ (s, c, docker_not_found)
    ]

    -- The routes of Handler: an exact pattern first, then the prefixes.
    unfoldable pub route_request :
        Surroundings → DockerRequest → Shim → api.Cluster → Shim × api.Cluster × DockerResponse
    route_request env r s c = elim (cut_prefix r.path (codes "/containers/")) [
      | some _ ↦
          if str_eq r.path (codes "/containers/create")
          then keeping c (handle_container_create env r s)
          else handle_containers_prefix env r s c
      | none ↦ elim (cut_prefix r.path (codes "/exec/")) [
        | some _ ↦ keeping c (handle_exec_prefix env r s)
        | none ↦ elim (cut_prefix r.path (codes "/networks/")) [
          | some _ ↦
              if str_eq r.path (codes "/networks/create")
              then (s, c, docker_reply 201 (network_id r.network_name))
              else keeping c (handle_networks_prefix r s)
          | none ↦
              if str_eq r.path (codes "/_ping")
              then (s, c, docker_reply 200 ping_text)
              else if str_eq r.path (codes "/version")
              then (s, c, docker_reply 200 version_info)
              else if is_subtree r.path
              then (s, c, docker_reply 301 no_body)
              else (s, c, docker_not_found)
        ]
      ]
    ]

    -- stripVersionPrefix in front of the routes.
    unfoldable pub serve :
        Surroundings → DockerRequest → Shim → api.Cluster → Shim × api.Cluster × DockerResponse
    serve env r s c = route_request env (record r { path = strip_version_prefix r.path }) s c
