-- ===== src/Session/Api.antt =====
-- The Kubernetes objects and calls that the engine uses. The API server is a parameter: `PodApi`
-- has its calls, and `PodLaws` what the engine relies on of them.
use training_platform.Shared.{Bytes, codes, ◌≡◌, ◌≢◌, Bool, Option, none, List, All}
use training_platform.Shared.Table.{Table, insert}
use training_platform.Session.Expiry.{managed_by_label, managed_by_value, label}

-- corev1.PodPhase
pub data Phase : Type 0 where
  pending running succeeded failed unknown : Phase

unfoldable pub phase_text : Phase → Bytes
phase_text pending = codes "Pending"
phase_text running = codes "Running"
phase_text succeeded = codes "Succeeded"
phase_text failed = codes "Failed"
phase_text unknown = codes "Unknown"

-- corev1.ContainerStateWaiting
pub record Waiting : Type 0 where
  pub reason : Bytes
  pub message : Bytes

-- corev1.Pod with its one container; `statuses` has the waiting state of each container, if it
-- waits.
pub record Pod : Type 0 where
  pub ns : Bytes
  pub name : Bytes
  pub labels : Table Bytes
  pub image : Bytes
  pub env : List (Bytes × Bytes)
  pub privileged : Bool
  pub phase : Phase
  pub ip : Bytes
  pub statuses : List (Option Waiting)

-- corev1.Namespace
pub record Namespace : Type 0 where
  pub name : Bytes
  pub labels : Table Bytes

pub data ApiError : Type 0 where
  not_found already_exists : ApiError
  other : Bytes → ApiError

pub data ApiResult {ℓ} (A : Type ℓ) : Type ℓ where
  ok : A → ApiResult A
  fail : ApiError → ApiResult A

-- A call that changes the cluster returns the new one, and the error if there is one. The list
-- calls have the selector managed-by=training-platform.
pub record PodApi : Type 1 where
  pub Cluster : Type 0
  pub get_pod : Cluster → Bytes → Bytes → ApiResult Pod
  pub list_pods : Cluster → Bytes → ApiResult (List Pod)
  pub create_pod : Cluster → Pod → Cluster × Option ApiError
  pub delete_pod : Cluster → Bytes → Bytes → Cluster × Option ApiError
  pub patch_label : Cluster → Bytes → Bytes → Bytes → Bytes → Cluster × Option ApiError
  pub create_namespace : Cluster → Namespace → Cluster × Option ApiError
  pub delete_namespace : Cluster → Bytes → Cluster × Option ApiError
  pub list_namespaces : Cluster → ApiResult (List Namespace)

-- Documented behaviour of the API server: a list call returns objects as they are, with the label
-- selected; a successful delete or merge patch of one Pod does that to it; other Pods stay.
pub record PodLaws (api : PodApi) : Type 0 where
  pub listed :
      (c : api.Cluster) (n : Bytes) (ps : List Pod)
      → api.list_pods c n ≡ ok ps
      → All
          (λ p.
            (api.get_pod c n p.name ≡ ok p) × (label p.labels managed_by_label ≡ managed_by_value))
          ps
  pub get-delete :
      (c : api.Cluster) (n m : Bytes)
      → (api.delete_pod c n m).1 ≡ none
      → api.get_pod (api.delete_pod c n m).0 n m ≡ fail not_found
  pub get-delete_ne :
      (c : api.Cluster) (n m k : Bytes)
      → m ≢ k
      → api.get_pod (api.delete_pod c n m).0 n k ≡ api.get_pod c n k
  pub get-patch :
      (c : api.Cluster) (n m key value : Bytes) (p : Pod)
      → api.get_pod c n m ≡ ok p
      → (api.patch_label c n m key value).1 ≡ none
      → api.get_pod (api.patch_label c n m key value).0 n m
        ≡ ok (record p { labels = insert key value p.labels })
