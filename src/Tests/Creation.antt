-- ===== src/Tests/Creation.antt =====
-- Instances that are booted by a request, and one that crashes.
use training_platform.Shared.{codes, ◌≡◌, refl, none, some, [], ◌∷◌, str_eq, is_empty}
use training_platform.Shared.Int.{pos}
use training_platform.Scoring.Http.{Request}
use training_platform.Session.Api.{Pod, pending, failed, ok, fail, not_found, phase_text}
use training_platform.Session.Expiry.{effective_expiry}
use training_platform.Session.Pods.{
  Instance, instance_labels, instance_pod, fatal_pod_reason, waiting_reason, is_ready, poll,
  wait_for_ready, not_started, cannot_start,
}
use training_platform.Session.Engine.{new_ephemeral_instance}
use training_platform.Session.Engine.Startup.{Some, ShowsReady}
use training_platform.Server.Creation.{
  started, start_error, create_reply, handle_create, handle_create-started, handle_create-failed,
}
use training_platform.Tests.Samples.{
  Cluster, sample_api, sample_laws, cluster_get, cluster_create, cluster_delete,
}
use training_platform.Tests.Session.{engine, cluster, shell, second}

-- The Pod before it has an address, and one that has crashed.
abbrev booting : Pod
booting = record shell { phase = pending; ip = [] }

abbrev crashed : Pod
crashed = record shell { phase = failed }

abbrev boot_request : Request
boot_request = record {
  method = codes "POST";
  path = codes "/api/v1/sessions";
  body = [];
  user = codes "ann";
}

abbrev booted : Instance
booted = record {
  name = codes "q";
  session_id = [];
  ip = codes "10.0.0.1";
  image = engine.default_image;
  expires_at = effective_expiry (instance_labels engine (pos (second 600)));
}

boot_answered :
    (handle_create sample_api
      (some engine)
      (pos (second 600))
      (codes "n")
      (codes "q")
      boot_request
      []
      (ok booting)
      (ok shell ∷ [])
      (λ c. c)
      cluster).1.body
    ≡ started booted
unfolding handle_create create_reply new_ephemeral_instance cluster_create str_eq instance_pod
    wait_for_ready poll fatal_pod_reason waiting_reason is_ready is_empty
boot_answered = refl

handle_create-started_example :
    (boot_request.method ≡ codes "POST")
    × (booted.name ≡ codes "q")
    × Some (ShowsReady booted.ip) (ok booting ∷ ok shell ∷ [])
handle_create-started_example =
    handle_create-started sample_api engine (pos (second 600)) (codes "n") (codes "q") boot_request
      [] (ok booting) (ok shell ∷ []) (λ c. c) cluster booted boot_answered

crash_answered :
    (handle_create sample_api
      (some engine)
      (pos (second 600))
      (codes "n")
      (codes "q")
      boot_request
      []
      (ok crashed)
      []
      (λ c. c)
      cluster).1.body
    ≡ start_error (not_started (cannot_start (codes "pod Failed")))
unfolding handle_create create_reply new_ephemeral_instance cluster_create str_eq instance_pod
    wait_for_ready poll fatal_pod_reason phase_text
crash_answered = refl

always_deleted : (c : Cluster) → (cluster_delete c (codes "n") (codes "q")).1 ≡ none
unfolding cluster_delete
always_deleted c = refl

handle_create-failed_example :
    cluster_get
      (handle_create sample_api
        (some engine)
        (pos (second 600))
        (codes "n")
        (codes "q")
        boot_request
        []
        (ok crashed)
        []
        (λ c. c)
        cluster).0
      (codes "n")
      (codes "q")
    ≡ fail not_found
handle_create-failed_example =
    handle_create-failed sample_api engine (pos (second 600)) (codes "n") (codes "q") boot_request
      [] (ok crashed) [] (λ c. c) cluster sample_laws (cannot_start (codes "pod Failed"))
      crash_answered always_deleted
