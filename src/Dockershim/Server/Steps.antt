-- ===== src/Dockershim/Server/Steps.antt =====
-- Every handler leaves a well-formed shim well formed.
use training_platform.Shared.{
  Bytes, codes, ℕ, ◌≡◌, sym, subst, Bool, true, false, not, ◌||◌, Option, none, some, List, str_eq,
  if◌then◌else◌, arith,
}
use training_platform.Shared.Table.{Table, lookup}
use training_platform.Dockershim.Names.{Sha1}
use training_platform.Dockershim.Shim.{
  CreateRequest, Shim, ShimApi, k8s_pod_name, delete_pod, run_sections, is_managed, network_connect,
  forget_container,
}
use training_platform.Dockershim.Shim.Invariant.{
  IsShim, k8s_pod_name-IsShim, run_sections-IsShim, start_container-IsShim, delete_pod-IsShim,
}
use training_platform.Dockershim.Server.{
  handle_exec_inspect, handle_container_create, handle_exec_create, handle_networks_prefix,
  handle_container_inspect, handle_container_logs, hijacked, handle_exec_start, handle_exec_action,
  handle_exec_prefix, handle_container_start, handle_container_stop, handle_container_remove,
  keeping,
}
use training_platform.Dockershim.Wire.{
  DockerRequest, Surroundings, DockerBody, no_body, DockerResponse, docker_reply, docker_error,
  docker_not_found, DockerRoute, bare, acted, unrouted, parse_route,
}

-- A property of both branches of a test, of every case of an option, of a route, of an API result.
pub if_both {ℓ κ} :
    {A : Type ℓ} (P : A → Type κ) (b : Bool) (x y : A) → P x → P y → P (if b then x else y)
if_both P true x y h k = h
if_both P false x y h k = k

pub option_both {ℓ κ ι} :
    {A : Type ℓ} {R : Type ι} (P : R → Type κ) (o : Option A) (x : R) (f : A → R)
    → P x
    → ((a : A) → P (f a))
    → P (elim o [ none ↦ x | some a ↦ f a ])
option_both P none x f h k = h
option_both P (some a) x f h k = k a

pub route_all {ℓ κ} :
    {R : Type ℓ} (P : R → Type κ) (route : DockerRoute) (f : Bytes → R) (g : Bytes → Bytes → R)
    (x : R)
    → ((id : Bytes) → P (f id))
    → ((id action : Bytes) → P (g id action))
    → P x
    → P (elim route [ bare id ↦ f id | acted id action ↦ g id action | unrouted ↦ x ])
route_all P (bare id) f g x h k l = h id
route_all P (acted id action) f g x h k l = k id action
route_all P unrouted f g x h k l = l

module _ (sha : Sha1) (lower_runes : Bytes → List ℕ) where
  -- A result whose shim is well formed.
  pub record Good (result : Shim × DockerResponse) : Type 0 where
    pub keeps : IsShim sha lower_runes result.0

  added :
      (pending : Table CreateRequest) (answer : DockerResponse) (s : Shim)
      → IsShim sha lower_runes s
      → Good (record s { pending = pending }, answer)
  added pending answer s h = record { keeps = h }

  pub create-Good :
      (env : Surroundings) (r : DockerRequest) (s : Shim)
      → IsShim sha lower_runes s
      → Good (handle_container_create env r s)
  unfolding handle_container_create
  create-Good env r s h =
      let same : (answer : DockerResponse) → Good (s, answer) = λ answer. record { keeps = h } in
      if_both Good _ _ _ (same docker_not_found)
        (option_both Good r.create_body _ _ (same (docker_error 400)) (λ req. added _ _ s h))

  pub exec_create-Good :
      (env : Surroundings) (r : DockerRequest) (id : Bytes) (s : Shim)
      → IsShim sha lower_runes s
      → Good (handle_exec_create env r id s)
  unfolding handle_exec_create
  exec_create-Good env r id s h =
      option_both Good r.exec_body _ _ (record { keeps = h }) (λ (cmd, tty). record { keeps = h })

  pub networks-Good :
      (r : DockerRequest) (s : Shim) → IsShim sha lower_runes s → Good (handle_networks_prefix r s)
  unfolding handle_networks_prefix network_connect
  networks-Good r s h =
      let same : (answer : DockerResponse) → Good (s, answer) = λ answer. record { keeps = h } in
      route_all Good (parse_route (codes "/networks/") r.path) _ _ _
        (λ id. if_both Good _ _ _ (same _) (same _))
        (λ id action.
          if_both Good (str_eq action (codes "connect"))
            (network_connect r.connect_container id s, docker_reply 200 no_body) _
            (record { keeps = h }) (if_both Good _ _ _ (same _) (same _)))
        (same _)

  named : Shim → Bytes → Shim
  named s id = (k8s_pod_name sha lower_runes s id).0

  -- The shim after what others did.
  later : Surroundings → Shim → Shim
  later env s = run_sections sha lower_runes (env.meanwhile 1) s

  -- Handlers that only look a Pod up leave the shim as it is, or with its name cached.
  shim-inspect :
      (env : Surroundings) (id : Bytes) (s : Shim)
      → (handle_container_inspect sha lower_runes env id s).0
        ≡ (if is_managed s id then named (later env s) id else s)
  unfolding handle_container_inspect named later
  shim-inspect env id s = ground arith

  shim-logs :
      (env : Surroundings) (id : Bytes) (s : Shim)
      → (handle_container_logs sha lower_runes env id s).0 ≡ named s id
  unfolding handle_container_logs named
  shim-logs env id s = ground arith

  shim-hijacked :
      (env : Surroundings) (body : Bytes → DockerBody) (id : Bytes) (s : Shim)
      → (hijacked sha lower_runes env body id s).0
        ≡ (if not env.is_hijacker || not env.hijacks then s else named s id)
  unfolding hijacked named
  shim-hijacked env body id s = ground arith

  named-IsShim :
      (s : Shim) (id : Bytes) → IsShim sha lower_runes s → IsShim sha lower_runes (named s id)
  unfolding named
  named-IsShim s id h = k8s_pod_name-IsShim sha lower_runes s id h

  later-IsShim :
      (env : Surroundings) (s : Shim)
      → IsShim sha lower_runes s
      → IsShim sha lower_runes (later env s)
  unfolding later
  later-IsShim env s h = run_sections-IsShim sha lower_runes (env.meanwhile 1) s h

  pub inspect-Good :
      (env : Surroundings) (id : Bytes) (s : Shim)
      → IsShim sha lower_runes s
      → Good (handle_container_inspect sha lower_runes env id s)
  inspect-Good env id s h = record {
    keeps = subst (IsShim sha lower_runes) (sym (shim-inspect env id s)) (
        if_both (IsShim sha lower_runes) (is_managed s id) (named (later env s) id) s
          (named-IsShim (later env s) id (later-IsShim env s h)) h);
  }

  pub logs-Good :
      (env : Surroundings) (id : Bytes) (s : Shim)
      → IsShim sha lower_runes s
      → Good (handle_container_logs sha lower_runes env id s)
  logs-Good env id s h = record {
    keeps = subst (IsShim sha lower_runes) (sym (shim-logs env id s)) (named-IsShim s id h);
  }

  pub hijacked-Good :
      (env : Surroundings) (body : Bytes → DockerBody) (id : Bytes) (s : Shim)
      → IsShim sha lower_runes s
      → Good (hijacked sha lower_runes env body id s)
  hijacked-Good env body id s h = record {
    keeps = subst (IsShim sha lower_runes) (sym (shim-hijacked env body id s)) (
        if_both (IsShim sha lower_runes) (not env.is_hijacker || not env.hijacks) s (named s id) h
          (named-IsShim s id h));
  }

  exec_start-Good :
      (env : Surroundings) (r : DockerRequest) (id : Bytes) (s : Shim)
      → IsShim sha lower_runes s
      → Good (handle_exec_start sha lower_runes env r id s)
  unfolding handle_exec_start
  exec_start-Good env r id s h =
      option_both Good (lookup id s.execs) _ _ (record { keeps = h })
        (λ entry.
          hijacked-Good env _ entry.container_id _
            (run_sections-IsShim sha lower_runes (env.meanwhile 1) s h))

  exec_action-Good :
      (env : Surroundings) (r : DockerRequest) (id action : Bytes) (s : Shim)
      → IsShim sha lower_runes s
      → Good (handle_exec_action sha lower_runes env r id action s)
  unfolding handle_exec_action
  exec_action-Good env r id action s h =
      let same : (answer : DockerResponse) → Good (s, answer) = λ answer. record { keeps = h } in
      if_both Good (str_eq action (codes "json")) _ _ (same (handle_exec_inspect id s)) (
        if_both Good (str_eq action (codes "start")) _ _ (exec_start-Good env r id s h) (
          if_both Good (str_eq action (codes "resize")) _ _ (same (docker_reply 200 no_body))
            (same docker_not_found)))

  pub exec-Good :
      (env : Surroundings) (r : DockerRequest) (s : Shim)
      → IsShim sha lower_runes s
      → Good (handle_exec_prefix sha lower_runes env r s)
  unfolding handle_exec_prefix
  exec-Good env r s h =
      let same : (answer : DockerResponse) → Good (s, answer) = λ answer. record { keeps = h } in
      route_all Good (parse_route (codes "/exec/") r.path) _ _ _ (λ id. same _)
        (λ id action. exec_action-Good env r id action s h) (same _)

  module _ (api : ShimApi) where
    pub record GoodStep (result : Shim × api.Cluster × DockerResponse) : Type 0 where
      pub keeps : IsShim sha lower_runes result.0

    pub kept :
        (c : api.Cluster) (result : Shim × DockerResponse)
        → Good result
        → GoodStep (keeping sha lower_runes api c result)
    kept c result good = record { keeps = good.keeps }

    pub start-Good :
        (env : Surroundings) (id : Bytes) (s : Shim) (c : api.Cluster)
        → IsShim sha lower_runes s
        → GoodStep (handle_container_start sha lower_runes api env id s c)
    unfolding handle_container_start
    start-Good env id s c h = record {
      keeps = start_container-IsShim sha lower_runes api env.meanwhile s c id h;
    }

    pub stop-Good :
        (id : Bytes) (s : Shim) (c : api.Cluster)
        → IsShim sha lower_runes s
        → GoodStep (handle_container_stop sha lower_runes api id s c)
    unfolding handle_container_stop
    stop-Good id s c h = record { keeps = delete_pod-IsShim sha lower_runes api s c id h }

    pub remove-Good :
        (env : Surroundings) (id : Bytes) (s : Shim) (c : api.Cluster)
        → IsShim sha lower_runes s
        → GoodStep (handle_container_remove sha lower_runes api env id s c)
    unfolding handle_container_remove forget_container
    remove-Good env id s c h =
        let (s', c', failed) = delete_pod sha lower_runes api s c id in
        let deleted : IsShim sha lower_runes s' = delete_pod-IsShim sha lower_runes api s c id h in
        let left = run_sections sha lower_runes (env.meanwhile 1) s' in
        if_both GoodStep failed (s', c', docker_error 500)
          (forget_container id left, c', docker_reply 204 no_body) (record { keeps = deleted })
          (record { keeps = run_sections-IsShim sha lower_runes (env.meanwhile 1) s' deleted })
