-- ===== src/Session/Pods.antt =====
-- internal/session/session.go: the Pods that the engine makes, and what it reads of a Pod.
use training_platform.Shared.{
  is_empty, Bytes, codes, ℕ, Bool, true, false, not, ◌&&◌, ◌||◌, Option, none, some, List, [], ◌∷◌,
  ◌++◌, str_eq, leb, if◌then◌else◌,
}
use training_platform.Shared.Int.{ℤ, pos, ◌+ℤ◌, ltb_ℤ, eqb_ℤ}
use training_platform.Shared.Decimal.{format_d}
use training_platform.Shared.Table.{Table, insert}
use training_platform.Session.Expiry.{
  managed_by_label, managed_by_value, expires_at_label, idle_expires_at_label, unix,
  effective_expiry,
}
use training_platform.Session.Api.{
  Phase, pending, running, succeeded, failed, unknown, phase_text, Waiting, Pod, ApiError,
  not_found, ApiResult, ok, fail,
}

-- type Engine struct, but for its clients. Durations are in nanoseconds.
pub record Engine : Type 0 where
  pub ns_prefix : Bytes
  pub ttl : ℤ
  pub idle_ttl : ℤ
  pub default_image : Bytes
  pub host_fqdn : Bytes

-- The defaults of New.
unfoldable pub with_defaults : Engine → Engine
unfolding is_empty
with_defaults o = record {
  ns_prefix = if is_empty o.ns_prefix then codes "session-" else o.ns_prefix;
  ttl = if eqb_ℤ o.ttl (pos 0) then pos 14_400_000_000_000 else o.ttl;
  idle_ttl = if eqb_ℤ o.idle_ttl (pos 0) then pos 600_000_000_000 else o.idle_ttl;
  default_image =
      if is_empty o.default_image
      then codes "ghcr.io/kalw/training-console-pwd:dind"
      else o.default_image;
  host_fqdn = o.host_fqdn;
}

-- NamespaceFor
unfoldable pub namespace_for : Engine → Bytes → Bytes
namespace_for e session_id = e.ns_prefix ++ session_id

-- The bytes that hostToken keeps.
unfoldable pub is_token_byte : ℕ → Bool
is_token_byte c = (leb b'0' c && leb c b'9') || (leb b'a' c && leb c b'z')

unfoldable pub keep_token_bytes : Bytes → Bytes
unfolding is_token_byte
keep_token_bytes [] = []
keep_token_bytes (c ∷ s) =
    let rest = keep_token_bytes s in if is_token_byte c then c ∷ rest else rest

-- hostToken
unfoldable pub host_token : Bytes → Bytes
unfolding is_empty
host_token s = let b = keep_token_bytes s in if is_empty b then codes "s0" else b

-- instanceEnv
unfoldable pub instance_env : Engine → Bytes → List (Bytes × Bytes)
unfolding host_token is_empty
instance_env e session_id =
    (codes "SESSION_ID", host_token session_id)
    ∷ (if is_empty e.host_fqdn then [] else (codes "PWD_HOST_FQDN", e.host_fqdn) ∷ [])

-- now.Add(d).Unix(), printed into a label.
unfoldable pub deadline : ℤ → ℤ → Bytes
unfolding unix ◌+ℤ◌
deadline now d = format_d (unix (now +ℤ d))

-- The labels of NewEphemeralInstance.
unfoldable pub instance_labels : Engine → ℤ → Table Bytes
instance_labels e now =
    let base = (managed_by_label, managed_by_value) ∷ (expires_at_label, deadline now e.ttl) ∷ [] in
    if ltb_ℤ (pos 0) e.idle_ttl
    then insert idle_expires_at_label (deadline now e.idle_ttl) base
    else base

-- The Pod that is created, with no status yet.
unfoldable pub instance_pod : Engine → Bytes → Bytes → Table Bytes → Bytes → Bytes → Pod
unfolding instance_env is_empty
instance_pod e ns name labels image env_id = record {
  ns = ns;
  name = name;
  labels = labels;
  image = if is_empty image then e.default_image else image;
  env = instance_env e env_id;
  privileged = true;
  phase = pending;
  ip = [];
  statuses = [];
}

unfoldable pub is_fatal_reason : Bytes → Bool
is_fatal_reason r =
    str_eq r (codes "ErrImagePull")
    || str_eq r (codes "ImagePullBackOff")
    || str_eq r (codes "InvalidImageName")
    || str_eq r (codes "CreateContainerConfigError")
    || str_eq r (codes "CreateContainerError")
    || str_eq r (codes "CrashLoopBackOff")

-- The loop of fatalPodReason over the container statuses.
unfoldable pub waiting_reason : List (Option Waiting) → Bytes
waiting_reason [] = []
waiting_reason (none ∷ rest) = waiting_reason rest
waiting_reason (some w ∷ rest) =
    let later = waiting_reason rest in
    if is_fatal_reason w.reason then w.reason ++ codes ": " ++ w.message else later

-- fatalPodReason
unfoldable pub fatal_pod_reason : Pod → Bytes
fatal_pod_reason p = elim p.phase [
  | failed ↦ codes "pod " ++ phase_text failed
  | succeeded ↦ codes "pod " ++ phase_text succeeded
  | _ ↦ waiting_reason p.statuses
]

-- Phase == Running && PodIP != ""
unfoldable pub is_ready : Pod → Bool
unfolding is_empty
is_ready p = elim p.phase [ running ↦ not (is_empty p.ip) | _ ↦ false ]

-- How waitForReady ends.
pub data Waited : Type 0 where
  ready : Bytes → Waited
  lookup_failed : ApiError → Waited
  cannot_start : Bytes → Waited
  timed_out : Phase → Waited

-- One poll of waitForReady: `inr` of the last phase goes on waiting.
unfoldable pub poll : ApiResult Pod → Option Waited
poll (fail e) = some (lookup_failed e)
poll (ok p) =
    if not (is_empty (fatal_pod_reason p))
    then some (cannot_start (fatal_pod_reason p))
    else if is_ready p
    then some (ready p.ip)
    else none

unfoldable pub polled_phase : ApiResult Pod → Phase
polled_phase (fail e) = unknown
polled_phase (ok p) = p.phase

-- waitForReady, on what the Get calls return one after the other: the first one, and those made
-- before the context ends.
unfoldable pub wait_for_ready : ApiResult Pod → List (ApiResult Pod) → Waited
wait_for_ready first [] = elim (poll first) [ none ↦ timed_out (polled_phase first) | some w ↦ w ]
wait_for_ready first (next ∷ polls) =
    let later = wait_for_ready next polls in elim (poll first) [ none ↦ later | some w ↦ w ]

-- type Instance struct
pub record Instance : Type 0 where
  pub name : Bytes
  pub session_id : Bytes
  pub ip : Bytes
  pub image : Bytes
  pub expires_at : ℤ

pub data EngineError : Type 0 where
  creating : ApiError → EngineError
  api_error : ApiError → EngineError
  not_started : Waited → EngineError

pub data Result {ℓ} (A : Type ℓ) : Type ℓ where
  done : A → Result A
  err : EngineError → Result A

-- type PodStatus struct
pub record PodStatus : Type 0 where
  pub name : Bytes
  pub phase : Phase
  pub is_up : Bool
  pub reason : Bytes
  pub ip : Bytes
  pub expires_at : ℤ

-- if apierrors.IsNotFound(err) { return nil }; return err
unfoldable pub ignore_not_found : Option ApiError → Option ApiError
ignore_not_found none = none
ignore_not_found (some not_found) = none
ignore_not_found (some e) = some e

-- What Status builds from the Pod.
unfoldable pub status_of : Bytes → Pod → PodStatus
status_of name p = record {
  name = name;
  phase = p.phase;
  is_up = is_ready p;
  reason = fatal_pod_reason p;
  ip = p.ip;
  expires_at = effective_expiry p.labels;
}
