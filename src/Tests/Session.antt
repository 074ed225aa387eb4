-- ===== src/Tests/Session.antt =====
-- The engine on a cluster of one Pod.
use training_platform.Shared.{
  Bytes, codes, ℕ, ◌≡◌, ◌≢◌, refl, true, false, none, some, [], ◌∷◌, All, arith, length, str_eq,
  ◌*◌, if◌then◌else◌,
}
use training_platform.Shared.Int.{pos}
use training_platform.Shared.Table.{lookup}
use training_platform.Shared.Decimal.{sscanf_d, format_d}
use training_platform.Session.Expiry.{
  label, unix, sooner, effective_expiry, passed, expires_at_label, idle_expires_at_label,
  managed_by_label, managed_by_value,
}
use training_platform.Session.Api.{Pod, PodApi, running, ok, fail, not_found}
use training_platform.Session.Engine.{extend, gc_expired_pods}
use training_platform.Session.Pods.{Engine, deadline}
use training_platform.Session.Engine.Keepalive.{keepalive_protects}
use training_platform.Session.Engine.Collect.{IsCollectable, gc_spares, gc_deletes_expired, expired}
use training_platform.Tests.Samples.{
  Cluster, sample_api, sample_laws, cluster_get, cluster_patch, cluster_delete, list_names,
  is_listed,
}

-- An engine with the windows of the defaults, 4 hours and 10 minutes.
abbrev pub engine : Engine
engine = record {
  ns_prefix = codes "session-";
  ttl = pos 14400000000000;
  idle_ttl = pos 600000000000;
  default_image = codes "dind";
  host_fqdn = [];
}

-- A Pod with its hard cap at second 5000 and its idle deadline at second 700.
abbrev pub shell : Pod
shell = record {
  ns = codes "n";
  name = codes "p";
  labels =
      (managed_by_label, managed_by_value)
      ∷ (expires_at_label, codes "5000")
      ∷ (idle_expires_at_label, codes "700")
      ∷ [];
  image = codes "dind";
  env = [];
  privileged = true;
  phase = running;
  ip = codes "10.0.0.1";
  statuses = [];
}

abbrev pub cluster : Cluster
cluster = record {
  pods = λ n m. if str_eq m (codes "p") then some shell else none;
  names = codes "p" ∷ [];
  namespaces = [];
}

pub shell_found : cluster_get cluster (codes "n") (codes "p") ≡ ok shell
unfolding cluster_get str_eq
shell_found = refl

abbrev pub second : ℕ → ℕ
second n = n * 1000000000

-- The keepalive at second 600 slides the idle deadline to second 1200.
pub extended :
    (extend sample_api engine (pos (second 600)) (codes "n") (codes "p") cluster).1 ≡ ok (pos 1200)
unfolding extend cluster_get str_eq cluster_patch effective_expiry sooner sscanf_d label lookup
    expires_at_label managed_by_label idle_expires_at_label deadline format_d
extended = refl

abbrev slid_cluster : Cluster
slid_cluster = (extend sample_api engine (pos (second 600)) (codes "n") (codes "p") cluster).0

hard_cap_ahead :
    passed (sscanf_d (label shell.labels expires_at_label)) (unix (pos (second 1200))) ≡ false
unfolding passed sscanf_d label lookup str_eq expires_at_label managed_by_label unix
hard_cap_ahead = refl

-- The collection at second 1200, when the idle deadline of before has passed.
keepalive_protects_example :
    (q : Pod) × (cluster_get slid_cluster (codes "n") (codes "p") ≡ ok q)
    × (cluster_get
          (gc_expired_pods sample_api engine (pos (second 1200)) (codes "n") slid_cluster).0
          (codes "n")
          (codes "p")
        ≡ ok q)
keepalive_protects_example =
    keepalive_protects sample_api sample_laws engine (second 600) 600000000000 (second 1200)
      (codes "n") (codes "p") cluster shell (pos 1200) shell_found extended refl (omega arith)
      (omega arith) (omega arith) hard_cap_ahead

capped : sscanf_d (label shell.labels expires_at_label) ≢ pos 0
unfolding sscanf_d label lookup str_eq expires_at_label managed_by_label
capped h = cc

shell_alive : ¬ IsCollectable (pos (second 600)) shell
unfolding passed effective_expiry sooner sscanf_d label lookup str_eq expires_at_label
    managed_by_label idle_expires_at_label unix
shell_alive h = cc (h.1)

gc_spares_example :
    cluster_get
      (gc_expired_pods sample_api engine (pos (second 600)) (codes "n") cluster).0
      (codes "n")
      (codes "p")
    ≡ ok shell
gc_spares_example =
    gc_spares sample_api sample_laws engine (pos (second 600)) (codes "n") (codes "p") cluster shell
      shell_found shell_alive

shell_listed : PodApi.list_pods sample_api cluster (codes "n") ≡ ok (shell ∷ [])
unfolding list_names is_listed label lookup str_eq managed_by_label managed_by_value
shell_listed = refl

deletes_succeed : (c : Cluster) (m : Bytes) → (cluster_delete c (codes "n") m).1 ≡ none
unfolding cluster_delete
deletes_succeed c m = refl

gc_deletes_expired_example :
    ((gc_expired_pods sample_api engine (pos (second 900)) (codes "n") cluster).1
      ≡ ok (length (expired sample_api sample_laws engine (unix (pos (second 900))) (shell ∷ []))))
    × All
        (λ p.
          cluster_get
            (gc_expired_pods sample_api engine (pos (second 900)) (codes "n") cluster).0
            (codes "n")
            p.name
          ≡ fail not_found)
        (expired sample_api sample_laws engine (unix (pos (second 900))) (shell ∷ []))
gc_deletes_expired_example =
    gc_deletes_expired sample_api sample_laws engine (pos (second 900)) (codes "n") cluster
      (shell ∷ []) shell_listed deletes_succeed
