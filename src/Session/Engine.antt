-- ===== src/Session/Engine.antt =====
-- The engine's operations: sessions are namespaces, instances are Pods.
pub mod Keepalive
pub mod Collect
pub mod Startup
use training_platform.Shared.{
  is_empty, Bytes, codes, ℕ, suc, ◌+◌, ◌≡◌, Bool, true, false, not, ◌&&◌, ◌||◌, Option, none, some,
  List, [], ◌∷◌, ◌++◌, str_eq, ltb, leb, if◌then◌else◌,
}
use training_platform.Shared.Int.{ℤ, pos, ◌+ℤ◌, ltb_ℤ, eqb_ℤ}
use training_platform.Shared.Decimal.{format_d, sscanf_d}
use training_platform.Shared.Table.{Table, insert}
use training_platform.Session.Expiry.{
  managed_by_label, managed_by_value, session_id_label, expires_at_label, idle_expires_at_label,
  label, unix, effective_expiry, passed,
}
use training_platform.Session.Api.{
  Phase, pending, running, succeeded, failed, unknown, phase_text, Waiting, Pod, Namespace,
  ApiError, not_found, already_exists, other, ApiResult, ok, fail, PodApi,
}
use training_platform.Session.Pods.{
  Engine, EngineError, Instance, PodStatus, Result, Waited, api_error, cannot_start, creating,
  deadline, done, err, fatal_pod_reason, host_token, ignore_not_found, instance_env,
  instance_labels, instance_pod, is_fatal_reason, is_ready, is_token_byte, keep_token_bytes,
  lookup_failed, namespace_for, not_started, poll, polled_phase, ready, status_of, timed_out,
  wait_for_ready, waiting_reason, with_defaults,
}

module _ (api : PodApi) (e : Engine) where
  open api use {
    Cluster, get_pod, list_pods, create_pod, delete_pod, patch_label, create_namespace,
    delete_namespace, list_namespaces,
  }

  -- SessionNew at time `now`: the cluster and the error, if any.
  unfoldable pub session_new : ℤ → Bytes → Cluster → Cluster × Option ApiError
  session_new now session_id c =
      let (c', failure) = create_namespace c (record {
        name = namespace_for e session_id;
        labels =
            (managed_by_label, managed_by_value)
            ∷ (session_id_label, session_id)
            ∷ (expires_at_label, deadline now e.ttl)
            ∷ [];
      }) in
      (
        c',
        elim failure [
          | none ↦ none
          | some already_exists ↦ none
          | some other_error ↦ some other_error
        ],
      )

  -- SessionClose
  unfoldable pub session_close : Bytes → Cluster → Cluster × Option ApiError
  session_close session_id c =
      let (c', failure) = delete_namespace c (namespace_for e session_id) in
      (c', ignore_not_found failure)

  -- InstanceNew. `polls` are the results of the Get calls of waitForReady, and `meanwhile` is what
  -- happens to the cluster while the call waits.
  unfoldable pub instance_new :
      Bytes
      → Bytes
      → Bytes
      → ApiResult Pod
      → List (ApiResult Pod)
      → (Cluster → Cluster)
      → Cluster
      → Cluster × Result Instance
  instance_new session_id name image first polls meanwhile c =
      let ns = namespace_for e session_id in
      let labels = (managed_by_label, managed_by_value) ∷ (session_id_label, session_id) ∷ [] in
      let pod = instance_pod e ns name labels image session_id in
      let (c', failure) = create_pod c pod in
      elim failure [
        | some x ↦ (c', err (creating x))
        | none ↦ elim (wait_for_ready first polls) [
          | ready ip ↦ (
            meanwhile c',
            done (record {
              name = name;
              session_id = session_id;
              ip = ip;
              image = pod.image;
              expires_at = pos 0;
            }),
          )
          | w ↦ (meanwhile c', err (not_started w))
        ]
      ]

  -- NewEphemeralInstance under the drawn name.
  unfoldable pub new_ephemeral_instance :
      ℤ
      → Bytes
      → Bytes
      → Bytes
      → ApiResult Pod
      → List (ApiResult Pod)
      → (Cluster → Cluster)
      → Cluster
      → Cluster × Result Instance
  new_ephemeral_instance now ns name image first polls meanwhile c =
      let labels = instance_labels e now in
      let pod = instance_pod e ns name labels image name in
      let (c', failure) = create_pod c pod in
      elim failure [
        | some x ↦ (c', err (creating x))
        | none ↦ elim (wait_for_ready first polls) [
          | ready ip ↦ (
            meanwhile c',
            done (record {
              name = name;
              session_id = [];
              ip = ip;
              image = pod.image;
              expires_at = effective_expiry labels;
            }),
          )
          | w ↦ ((delete_pod (meanwhile c') ns name).0, err (not_started w))
        ]
      ]

  -- DeletePod
  unfoldable pub delete_instance : Bytes → Bytes → Cluster → Cluster × Option ApiError
  delete_instance ns name c =
      let (c', failure) = delete_pod c ns name in (c', ignore_not_found failure)

  -- InstanceDelete
  unfoldable pub instance_delete : Bytes → Bytes → Cluster → Cluster × Option ApiError
  instance_delete session_id name c =
      let (c', failure) = delete_pod c (namespace_for e session_id) name in
      (c', ignore_not_found failure)

  -- Status
  unfoldable pub status : Bytes → Bytes → Cluster → ApiResult PodStatus
  status ns name c = elim (get_pod c ns name) [ fail x ↦ fail x | ok p ↦ ok (status_of name p) ]

  -- Extend at time `now`: the cluster, and the next expiry or the error.
  unfoldable pub extend : ℤ → Bytes → Bytes → Cluster → Cluster × ApiResult ℤ
  extend now ns name c = elim (get_pod c ns name) [
    | fail x ↦ (c, fail x)
    | ok p ↦
        if not (ltb_ℤ (pos 0) e.idle_ttl)
        then (c, ok (effective_expiry p.labels))
        else (let idle = deadline now e.idle_ttl in
            let (c', failure) = patch_label c ns name idle_expires_at_label idle in
            elim failure [
              | some x ↦ (c', fail x)
              | none ↦ (
                c',
                ok (
                    effective_expiry (
                      (expires_at_label, label p.labels expires_at_label)
                      ∷ (idle_expires_at_label, idle)
                      ∷ [])),
              )
            ])
  ]

  -- The loop of GCExpiredPods at the second `now`: the cluster, and how many Pods were deleted.
  unfoldable pub collect_pods : ℤ → Bytes → List Pod → Cluster → Cluster × ℕ
  collect_pods now ns [] c = (c, 0)
  collect_pods now ns (p ∷ ps) c = elim (passed (effective_expiry p.labels) now) [
    | true ↦
        let (c', failure) = delete_pod c ns p.name in
        let (c'', n) = collect_pods now ns ps c' in
        (c'', elim failure [ none ↦ n + 1 | some _ ↦ n ])
    | false ↦ collect_pods now ns ps c
  ]

  -- GCExpiredPods
  unfoldable pub gc_expired_pods : ℤ → Bytes → Cluster → Cluster × ApiResult ℕ
  gc_expired_pods now ns c = elim (list_pods c ns) [
    | fail x ↦ (c, fail x)
    | ok ps ↦ let (c', n) = collect_pods (unix now) ns ps c in (c', ok n)
  ]

  -- The loop of GCExpired over the namespaces.
  unfoldable pub collect_namespaces : ℤ → List Namespace → Cluster → Cluster × ℕ
  collect_namespaces now [] c = (c, 0)
  collect_namespaces now (n ∷ ns) c =
      elim (passed (sscanf_d (label n.labels expires_at_label)) now) [
        | true ↦
            let (c', failure) = delete_namespace c n.name in
            let (c'', k) = collect_namespaces now ns c' in
            (c'', elim failure [ none ↦ k + 1 | some _ ↦ k ])
        | false ↦ collect_namespaces now ns c
      ]

  -- GCExpired
  unfoldable pub gc_expired : ℤ → Cluster → Cluster × ApiResult ℕ
  gc_expired now c = elim (list_namespaces c) [
    | fail x ↦ (c, fail x)
    | ok ns ↦ let (c', n) = collect_namespaces (unix now) ns c in (c', ok n)
  ]
