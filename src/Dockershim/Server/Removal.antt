-- ===== src/Dockershim/Server/Removal.antt =====
-- One container from its creation to its removal.
use training_platform.Shared.{
  Bytes, ℕ, ◌≡◌, ap, true, none, some, List, [], ◌∷◌, str_eq_refl, arith,
}
use training_platform.Shared.Table.{lookup, insert, contains, lookup-remove, contains-insert}
use training_platform.Dockershim.Names.{Sha1, sanitize_k8s_name}
use training_platform.Dockershim.Shim.{
  CreateRequest, Shim, ShimApi, members_of, k8s_pod_name, pod_of, note_created, start_container,
  delete_pod, is_managed, forget_container, forgets, run_section, run_sections,
}
use training_platform.Dockershim.Shim.Invariant.{
  IsCache, k8s_pod_name_lem, run_sections-net_members,
}
use training_platform.Dockershim.Server.{
  handle_container_start, handle_container_remove, handle_container_inspect,
}
use training_platform.Dockershim.Wire.{
  Surroundings, no_body, container, docker_reply, unmanaged_json,
}

note_created-is_managed :
    (id : Bytes) (spec : CreateRequest) (s : Shim) → is_managed (note_created id spec s) id ≡ true
unfolding note_created is_managed
note_created-is_managed id spec s = ground (arith, contains-insert id id s.created, str_eq_refl id)

note_created_lem :
    (d : Bytes) (spec : CreateRequest) (s : Shim)
    → let s' = note_created d spec s in
      (s'.pod_name ≡ s.pod_name) × (s'.pending ≡ s.pending) × (s'.created ≡ insert d true s.created)
unfolding note_created
note_created_lem d spec s = ground arith

forget_container_lem : (d : Bytes) (s : Shim) → lookup d (forget_container d s).pending ≡ none
unfolding forget_container
forget_container_lem d s = ground (arith, lookup-remove d d s.pending, str_eq_refl d)

module _ (sha : Sha1) (lower_runes : Bytes → List ℕ) (api : ShimApi) where
  -- A start during which the container is removed, while the API server creates its Pod: the start
  -- is answered 204 and the container counts as created, although it has no spec any more.
  start-remove :
      (env : Surroundings) (id : Bytes) (spec : CreateRequest) (s : Shim) (c : api.Cluster)
      → IsCache sha lower_runes s.pod_name
      → lookup id s.pending ≡ some spec
      → env.meanwhile 1 ≡ []
      → env.meanwhile 2 ≡ forgets id ∷ []
      → (api.create_pod c (pod_of (sanitize_k8s_name sha lower_runes id) spec)).1 ≡ none
      → let (s', c', started) = handle_container_start sha lower_runes api env id s c in
        (started ≡ docker_reply 204 no_body)
        × (is_managed s' id ≡ true)
        × (lookup id s'.pending ≡ none)
  unfolding handle_container_start start_container run_sections run_section
  start-remove env id spec s c h listed before during taken =
      let (name, _, _) = k8s_pod_name_lem sha lower_runes s id h in
      let named = (k8s_pod_name sha lower_runes s id).0 in
      let (_, gone, _) = note_created_lem id spec (forget_container id named) in
      let forgotten = forget_container_lem id named in
      ground (
        arith,
        listed,
        before,
        during,
        taken,
        name,
        gone,
        forgotten,
        note_created-is_managed id spec (forget_container id named),
      )

  -- A container whose Pod is deleted by a remove: the remove is answered 204, and an inspect after
  -- it 200, with a state that says "running" and a made-up address in every network the container
  -- was in, and in those that other requests added to it while the Pod was deleted.
  pub inspect-remove :
      (env : Surroundings) (id : Bytes) (s : Shim) (c : api.Cluster)
      → IsCache sha lower_runes s.pod_name
      → (api.delete_pod c (sanitize_k8s_name sha lower_runes id)).1 ≡ none
      → let (s', c', removed) = handle_container_remove sha lower_runes api env id s c in
        let networks = (run_sections sha lower_runes (env.meanwhile 1) s).net_members in
        (removed ≡ docker_reply 204 no_body)
        × (handle_container_inspect sha lower_runes env id s'
            ≡ (s', docker_reply 200 (container (unmanaged_json sha id (members_of networks id)))))
  unfolding handle_container_remove handle_container_inspect delete_pod forget_container is_managed
      contains
  inspect-remove env id s c h gone =
      let (name, _, same) = k8s_pod_name_lem sha lower_runes s id h in
      let named = (k8s_pod_name sha lower_runes s id).0 in
      let left = run_sections sha lower_runes (env.meanwhile 1) named in
      let kept : named.net_members ≡ s.net_members = ap (λ x. Shim.net_members x) same in
      ground (
        arith,
        name,
        gone,
        run_sections-net_members sha lower_runes (env.meanwhile 1) named s kept,
        lookup-remove id id left.created,
        str_eq_refl id,
      )
