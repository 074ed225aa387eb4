-- ===== src/Dockershim/Server/Lifecycle.antt =====
-- The shim over any sequence of requests.
use training_platform.Shared.{
  Bytes, codes, ℕ, ◌≡◌, ap, ◌∙◌, true, List, [], ◌∷◌, str_eq, cut_prefix,
}
use training_platform.Dockershim.Names.{Sha1, sanitize_k8s_name}
use training_platform.Dockershim.Names.Labels.{is_dns_label, sanitize-is_dns_label}
use training_platform.Dockershim.Shim.{Shim, new_shim, ShimApi, k8s_pod_name, run_sections}
use training_platform.Dockershim.Shim.Invariant.{
  IsShim, new_shim-IsShim, run_sections-IsShim, k8s_pod_name_lem,
}
use training_platform.Dockershim.Server.{
  is_subtree, handle_action, handle_containers_prefix, route_request, serve,
}
use training_platform.Dockershim.Wire.{
  no_body, DockerRequest, Surroundings, ping_text, version_info, network_id, DockerResponse,
  docker_reply, docker_not_found, parse_route,
}
use training_platform.Dockershim.Server.Steps.{
  if_both, option_both, route_all, GoodStep, create-Good, exec_create-Good, networks-Good,
  inspect-Good, logs-Good, hijacked-Good, exec-Good, start-Good, stop-Good, remove-Good, kept,
}

module _ (sha : Sha1) (lower_runes : Bytes → List ℕ) where
  module _ (api : ShimApi) where
    abbrev Step : Shim × api.Cluster × DockerResponse → Type 0
    Step = GoodStep sha lower_runes api

    action-Good :
        (env : Surroundings) (r : DockerRequest) (id action : Bytes) (s : Shim) (c : api.Cluster)
        → IsShim sha lower_runes s
        → Step (handle_action sha lower_runes api env r id action s c)
    unfolding handle_action
    action-Good env r id action s c h =
        let same : (answer : DockerResponse) → Step (s, c, answer) =
          λ answer. record { keeps = h } in
        if_both Step _ _ _ (kept sha lower_runes api c _ (inspect-Good sha lower_runes env id s h))
          (if_both Step _ _ _ (start-Good sha lower_runes api env id s c h) (
            if_both Step _ _ _ (stop-Good sha lower_runes api id s c h) (
              if_both Step _ _ _
                (kept sha lower_runes api c _ (logs-Good sha lower_runes env id s h))
                (if_both Step _ _ _
                  (kept sha lower_runes api c _ (exec_create-Good sha lower_runes env r id s h))
                  (if_both Step _ _ _
                    (kept sha lower_runes api c _ (hijacked-Good sha lower_runes env _ id s h))
                    (if_both Step _ _ _ (same _) (same _)))))))

    containers-Good :
        (env : Surroundings) (r : DockerRequest) (s : Shim) (c : api.Cluster)
        → IsShim sha lower_runes s
        → Step (handle_containers_prefix sha lower_runes api env r s c)
    unfolding handle_containers_prefix
    containers-Good env r s c h =
        let same : (answer : DockerResponse) → Step (s, c, answer) =
          λ answer. record { keeps = h } in
        route_all Step (parse_route (codes "/containers/") r.path) _ _ _
          (λ id. if_both Step _ _ _ (remove-Good sha lower_runes api env id s c h) (same _))
          (λ id action. action-Good env r id action s c h) (same _)

    handle-Good :
        (env : Surroundings) (r : DockerRequest) (s : Shim) (c : api.Cluster)
        → IsShim sha lower_runes s
        → Step (route_request sha lower_runes api env r s c)
    unfolding route_request
    handle-Good env r s c h =
        let same : (answer : DockerResponse) → Step (s, c, answer) =
          λ answer. record { keeps = h } in
        option_both Step (cut_prefix r.path (codes "/containers/")) _ _
          (option_both Step (cut_prefix r.path (codes "/exec/")) _ _
            (option_both Step (cut_prefix r.path (codes "/networks/")) _ _
              (if_both Step (str_eq r.path (codes "/_ping")) _ _ (same (docker_reply 200 ping_text))
                (if_both Step (str_eq r.path (codes "/version")) _ _
                  (same (docker_reply 200 version_info))
                  (if_both Step (is_subtree r.path) _ _ (same (docker_reply 301 no_body))
                    (same docker_not_found))))
              (λ _.
                if_both Step (str_eq r.path (codes "/networks/create")) _ _
                  (same (docker_reply 201 (network_id r.network_name)))
                  (kept sha lower_runes api c _ (networks-Good sha lower_runes r s h))))
            (λ _. kept sha lower_runes api c _ (exec-Good sha lower_runes env r s h)))
          (λ _.
            if_both Step (str_eq r.path (codes "/containers/create")) _ _
              (kept sha lower_runes api c _ (create-Good sha lower_runes env r s h))
              (containers-Good env r s c h))

    -- Requests one after the other, each with what the environment answers, and with the sections of
    -- other requests that run before it takes the lock and whenever it lets go of it.
    unfoldable pub serve_all :
        List (Surroundings × DockerRequest) → Shim → api.Cluster → Shim × api.Cluster
    serve_all [] s c = (s, c)
    serve_all ((env, r) ∷ rs) s c =
        let ready = run_sections sha lower_runes (env.meanwhile 0) s in
        let (s', c', _) = serve sha lower_runes api env r ready c in serve_all rs s' c'

    pub serve_all-IsShim :
        (rs : List (Surroundings × DockerRequest)) (s : Shim) (c : api.Cluster)
        → IsShim sha lower_runes s
        → IsShim sha lower_runes (serve_all rs s c).0
    unfolding serve_all serve
    serve_all-IsShim [] s c h = h
    serve_all-IsShim ((env, r) ∷ rs) s c h =
        let ready = run_sections-IsShim sha lower_runes (env.meanwhile 0) s h in
        serve_all-IsShim rs _ _ (handle-Good env _ _ c ready).keeps

    -- After any sequence of requests to a new shim, whatever the API server and the environment
    -- answer, and whatever sections of other requests run before each of them and whenever it lets go
    -- of the lock: the name of a container's Pod is the sanitized name of the container, whether it
    -- comes from the cache or not, and Kubernetes takes it as a label.
    pub serve_all_lem :
        (rs : List (Surroundings × DockerRequest)) (c : api.Cluster) (id : Bytes)
        → let s = (serve_all rs new_shim c).0 in
          let name = (k8s_pod_name sha lower_runes s id).1 in
          (name ≡ sanitize_k8s_name sha lower_runes id) × (is_dns_label name ≡ true)
    serve_all_lem rs c id =
        let h = serve_all-IsShim rs new_shim c (new_shim-IsShim sha lower_runes) in
        let name = (k8s_pod_name_lem sha lower_runes _ id h).0 in
        (name, ap is_dns_label name ∙ sanitize-is_dns_label sha lower_runes id)
