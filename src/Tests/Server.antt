-- ===== src/Tests/Server.antt =====
-- The server's handlers on a cluster of one Pod.
use training_platform.Shared.{
  is_empty, Bytes, codes, ◌≡◌, refl, ap, ◌∙◌, str_eq, cut, cut_prefix, none, some, [],
}
use training_platform.Shared.Int.{ℤ, pos}
use training_platform.Shared.Table.{lookup}
use training_platform.Scoring.Challenge.{assertive, spec_matches, str_contains}
use training_platform.Scoring.Store.{get}
use training_platform.Scoring.Journal.{synced}
use training_platform.Scoring.Http.{
  Request, Decoder, verify_correct, handle_verify, conclude, check_verify, is_post, judge, is_ok,
}
use training_platform.Session.Engine.{status}
use training_platform.Session.Pods.{PodStatus, status_of, is_ready}
use training_platform.Server.PodFetch.{
  Dialed, replied, pod_fetcher, IsVerified, handle_verify-fetch_pod, is_pod_name, fetch_pod,
  fetch_ready, read_page,
}
use training_platform.Server.Sessions.{
  handle_session, status-keepalive, IsKeepalive, IsStatusRequest, kept, reply_of, pod_status,
  pod_and_action, keepalive_reply, handle_session-keepalive,
}
use training_platform.Tests.Samples.{sample_codec, sample_api, sample_laws, cluster_get}
use training_platform.Tests.Scoring.{at}
use training_platform.Tests.Report.{page_store, verify_request, no_patterns}
use training_platform.Tests.Session.{engine, cluster, shell, second, shell_found, extended}

-- The Pod "p" is asked for.
abbrev decoder : Decoder
decoder = record {
  attempt = λ body. none;
  verify = λ body. some (record { challenge_hash = body; pod = codes "p" });
}

abbrev dial : Bytes → ℤ → Bytes → Dialed
dial ip port path = replied (pos 200) (codes "hello world")

verified :
    (handle_verify sample_codec synced at decoder no_patterns
      (pod_fetcher sample_api engine dial (codes "n") cluster)
      page_store
      verify_request).1.body
    ≡ verify_correct
unfolding handle_verify conclude check_verify is_post str_eq get assertive judge fetch_pod
    is_pod_name fetch_ready status cluster_get status_of is_ready read_page is_ok spec_matches
    str_contains is_empty lookup cut_prefix
verified = refl

handle_verify-fetch_pod_example :
    IsVerified sample_api engine dial sample_codec synced at decoder no_patterns
      (codes "n")
      cluster
      page_store
      verify_request
      (handle_verify sample_codec synced at decoder no_patterns
        (pod_fetcher sample_api engine dial (codes "n") cluster)
        page_store
        verify_request).0
handle_verify-fetch_pod_example =
    handle_verify-fetch_pod sample_api engine dial sample_codec synced at decoder no_patterns
      (codes "n") cluster page_store verify_request verified

abbrev keepalive_request : Request
keepalive_request = record {
  method = codes "POST";
  path = codes "/api/v1/sessions/p/keepalive";
  body = [];
  user = [];
}

abbrev status_request : Request
status_request = record {
  method = codes "GET";
  path = codes "/api/v1/sessions/p";
  body = [];
  user = [];
}

keepalive_request-IsKeepalive : IsKeepalive sample_api keepalive_request (codes "p")
unfolding pod_and_action is_pod_name cut cut_prefix
keepalive_request-IsKeepalive = (refl, refl, refl)

status_request-IsStatusRequest : IsStatusRequest sample_api status_request (codes "p")
unfolding pod_and_action is_pod_name cut cut_prefix
status_request-IsStatusRequest = (refl, refl, refl)

answered_kept :
    (handle_session sample_api
      (some engine)
      (pos (second 600))
      (codes "n")
      keepalive_request
      cluster).1.body
    ≡ kept (codes "p") (pos 1200)
answered_kept =
    ap (λ x. x.1.body)
      (handle_session-keepalive sample_api engine (pos (second 600)) (codes "n") (codes "p")
        keepalive_request cluster keepalive_request-IsKeepalive)
    ∙ ap (λ y. (keepalive_reply (codes "p") y).body) extended
    ∙ unfold keepalive_reply reply_of in refl

status-keepalive_example :
    (st : PodStatus) × (handle_session sample_api
        (some engine)
        (pos (second 700))
        (codes "n")
        status_request
        (handle_session sample_api
          (some engine)
          (pos (second 600))
          (codes "n")
          keepalive_request
          cluster).0
      ≡ (
        (handle_session sample_api
            (some engine)
            (pos (second 600))
            (codes "n")
            keepalive_request
            cluster).0,
        reply_of 200 (pod_status st),
      ))
    × (st.expires_at ≡ pos 1200)
status-keepalive_example =
    status-keepalive sample_api sample_laws engine (pos (second 600)) (pos (second 700)) (codes "n")
      (codes "p") (codes "p") keepalive_request status_request cluster shell (pos 1200)
      keepalive_request-IsKeepalive status_request-IsStatusRequest shell_found answered_kept
