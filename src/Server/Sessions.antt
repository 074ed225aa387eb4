-- ===== src/Server/Sessions.antt =====
-- internal/server/server.go: the API of one session, and the collector's loop.
use training_platform.Shared.{
  is_empty, Bytes, codes, ℕ, ◌≡◌, ◌↔◌, refl, sym, ap, subst, ◌∙◌, Bool, true, false, not, ◌&&◌,
  Option, none, some, [], arith, str_eq, str_eq_iff, cut, cut_prefix, if◌then◌else◌,
}
use training_platform.Shared.Int.{ℤ}
use training_platform.Scoring.Http.{Request}
use training_platform.Session.Api.{
  Pod, PodApi, PodLaws, ApiError, not_found, already_exists, other, ApiResult, ok, fail,
}
use training_platform.Session.Engine.{extend, status, delete_instance, gc_expired, gc_expired_pods}
use training_platform.Session.Pods.{Engine, PodStatus}
use training_platform.Session.Engine.Keepalive.{status-extend}
use training_platform.Server.PodFetch.{is_pod_name}

-- The bodies of the answers.
pub data SessionBody : Type 0 where
  no_cluster no_page no_such_session keepalive_failed status_failed no_content not_allowed :
      SessionBody
  kept : Bytes → ℤ → SessionBody
  pod_status : PodStatus → SessionBody

pub record SessionReply : Type 0 where
  pub status : ℕ
  pub body : SessionBody

unfoldable pub reply_of : ℕ → SessionBody → SessionReply
reply_of status body = record { status = status; body = body }

-- apierrors.IsNotFound
unfoldable pub is_not_found : ApiError → Bool
is_not_found not_found = true
is_not_found _ = false

-- strings.TrimPrefix(path, "/api/v1/sessions/"), cut at the first slash.
unfoldable pub pod_and_action : Bytes → Bytes × Bytes
pod_and_action path =
    let rest : Bytes = elim (cut_prefix path (codes "/api/v1/sessions/")) [
      | none ↦ path
      | some r ↦ r
    ] in
    let (pod, action) = cut b'/' rest in (pod, elim action [ none ↦ [] | some a ↦ a ])

-- The answer to a keepalive.
unfoldable pub keepalive_reply : Bytes → ApiResult ℤ → SessionReply
keepalive_reply pod (ok exp) = reply_of 200 (kept pod exp)
keepalive_reply pod (fail x) =
    if is_not_found x then reply_of 404 no_such_session else reply_of 502 keepalive_failed

-- The answer to a GET.
unfoldable pub status_reply : ApiResult PodStatus → SessionReply
status_reply (ok st) = reply_of 200 (pod_status st)
status_reply (fail x) =
    if is_not_found x then reply_of 404 no_such_session else reply_of 502 status_failed

module _ (api : PodApi) where
  -- The switch of the handler of /api/v1/sessions/.
  unfoldable pub session_action :
      Engine → ℤ → Bytes → Request → Bytes → Bytes → api.Cluster → api.Cluster × SessionReply
  session_action e now ns r pod action c =
      if str_eq action (codes "keepalive") && str_eq r.method (codes "POST")
      then (let (c', exp) = extend api e now ns pod c in (c', keepalive_reply pod exp))
      else if is_empty action && str_eq r.method (codes "GET")
      then (c, status_reply (status api e ns pod c))
      else if is_empty action && str_eq r.method (codes "DELETE")
      then ((delete_instance api e ns pod c).0, reply_of 204 no_content)
      else (c, reply_of 405 not_allowed)

  -- The handler of /api/v1/sessions/; the engine may be nil.
  unfoldable pub handle_session :
      Option Engine → ℤ → Bytes → Request → api.Cluster → api.Cluster × SessionReply
  handle_session none now ns r c = (c, reply_of 503 no_cluster)
  handle_session (some e) now ns r c =
      let (pod, action) = pod_and_action r.path in
      if not (is_pod_name pod)
      then (c, reply_of 404 no_page)
      else session_action e now ns r pod action c

  -- One tick of RunGC: namespaces first, then the Pods of the terminals' namespace.
  unfoldable pub gc_tick : Engine → ℤ → Bytes → api.Cluster → api.Cluster
  gc_tick e now ns c = (gc_expired_pods api e now ns (gc_expired api e now c).0).0

  -- A keepalive request for a Pod.
  abbrev pub IsKeepalive : Request → Bytes → Type 0
  IsKeepalive r pod =
      (r.method ≡ codes "POST")
      × (pod_and_action r.path ≡ (pod, codes "keepalive"))
      × (is_pod_name pod ≡ true)

  pub handle_session-keepalive :
      (e : Engine) (now : ℤ) (ns pod : Bytes) (r : Request) (c : api.Cluster)
      → IsKeepalive r pod
      → handle_session (some e) now ns r c
        ≡ ((extend api e now ns pod c).0, keepalive_reply pod (extend api e now ns pod c).1)
  unfolding handle_session session_action
  handle_session-keepalive e now ns pod r c k = ground (
    arith,
    k,
    str_eq_iff (pod_and_action r.path).1 (codes "keepalive"),
    str_eq_iff r.method (codes "POST"),
  )

  keepalive_reply_lem :
      (pod : Bytes) (x : ApiResult ℤ)
      → ((keepalive_reply pod x).status ≡ 404 → x ≡ fail not_found)
        × (x ≡ fail not_found → (keepalive_reply pod x).status ≡ 404)
  unfolding keepalive_reply reply_of is_not_found
  keepalive_reply_lem pod (ok exp) = ((λ h. ground arith), λ h. cc)
  keepalive_reply_lem pod (fail not_found) = ((λ h. refl), λ h. refl)
  keepalive_reply_lem pod (fail already_exists) = ((λ h. ground arith), λ h. cc)
  keepalive_reply_lem pod (fail (other m)) = ((λ h. ground arith), λ h. cc)

  -- A keepalive of a well-formed name is answered 404 exactly if the engine found no such Pod: the
  -- page resets its session on nothing else.
  keepalive_404 :
      (e : Engine) (now : ℤ) (ns pod : Bytes) (r : Request) (c : api.Cluster)
      → IsKeepalive r pod
      → ((handle_session (some e) now ns r c).1.status ≡ 404)
        ↔ ((extend api e now ns pod c).1 ≡ fail not_found)
  keepalive_404 e now ns pod r c k =
      let same = ap (λ x. x.1.status) (handle_session-keepalive e now ns pod r c k) in
      let both = keepalive_reply_lem pod (extend api e now ns pod c).1 in
      ((λ h. both.0 (sym same ∙ h)), λ h. same ∙ both.1 h)

  -- A request for the status of a Pod.
  abbrev pub IsStatusRequest : Request → Bytes → Type 0
  IsStatusRequest r pod =
      (r.method ≡ codes "GET") × (pod_and_action r.path ≡ (pod, [])) × (is_pod_name pod ≡ true)

  get_is_no_post : str_eq (codes "GET") (codes "POST") ≡ false
  unfolding str_eq
  get_is_no_post = refl

  blank_is_empty : is_empty [] ≡ true
  unfolding is_empty
  blank_is_empty = refl

  handle_session-status :
      (e : Engine) (now : ℤ) (ns pod : Bytes) (r : Request) (c : api.Cluster)
      → IsStatusRequest r pod
      → handle_session (some e) now ns r c ≡ (c, status_reply (status api e ns pod c))
  unfolding handle_session session_action
  handle_session-status e now ns pod r c k = ground (
    arith,
    k,
    get_is_no_post,
    blank_is_empty,
    str_eq_iff r.method (codes "GET"),
    str_eq_iff r.method (codes "POST"),
  )

module _ (api : PodApi) (laws : PodLaws api) where
  kept_exp :
      (pod pod' : Bytes) (x : ApiResult ℤ) (exp : ℤ)
      → (keepalive_reply pod x).body ≡ kept pod' exp
      → x ≡ ok exp
  unfolding keepalive_reply reply_of is_not_found
  kept_exp pod pod' (ok y) exp h = cc
  kept_exp pod pod' (fail not_found) exp h = cc
  kept_exp pod pod' (fail already_exists) exp h = cc
  kept_exp pod pod' (fail (other m)) exp h = cc

  -- The expiry that a page gets from its keepalive is the one in the answer to a GET right after it,
  -- whenever that is answered, and the GET itself changes nothing.
  pub status-keepalive :
      (e : Engine) (now later : ℤ) (ns pod pod' : Bytes) (r q : Request) (c : api.Cluster) (p : Pod)
      (exp : ℤ)
      → IsKeepalive api r pod
      → IsStatusRequest api q pod
      → api.get_pod c ns pod ≡ ok p
      → (handle_session api (some e) now ns r c).1.body ≡ kept pod' exp
      → (st : PodStatus) × (handle_session api
            (some e)
            later
            ns
            q
            (handle_session api (some e) now ns r c).0
          ≡ ((handle_session api (some e) now ns r c).0, reply_of 200 (pod_status st)))
        × (st.expires_at ≡ exp)
  status-keepalive e now later ns pod pod' r q c p exp k g found h =
      let same = handle_session-keepalive api e now ns pod r c k in
      let got =
        kept_exp pod pod' (extend api e now ns pod c).1 exp (ap (λ x. x.1.body) (sym same) ∙ h) in
      let (st, shown, expiry) = status-extend api laws e now ns pod c p exp found got in
      let after = (extend api e now ns pod c).0 in
      (
        st,
        subst (λ d. handle_session api (some e) later ns q d ≡ (d, reply_of 200 (pod_status st)))
            (ap (λ x. x.0) (sym same))
            (handle_session-status api e later ns pod q after g
              ∙ ap (λ x. (after, status_reply x)) shown
              ∙ unfold status_reply in refl),
        expiry,
      )
