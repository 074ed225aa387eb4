-- ===== src/Session/Engine/Startup.antt =====
-- Booting an instance: the wait for its Pod, the clean-up when it cannot start, its environment.
use training_platform.Shared.{
  is_empty→eq, is_empty, Bytes, codes, ◌≡◌, ◌≢◌, refl, true, none, some, List, [], ◌∷◌, ◌++◌, All,
  arith, inl, inr, ◌⊎◌, all, if◌then◌else◌,
}
use training_platform.Shared.Int.{ℤ}
use training_platform.Session.Api.{Pod, PodApi, PodLaws, ApiResult, ok, fail, not_found}
use training_platform.Session.Engine.{new_ephemeral_instance}
use training_platform.Session.Pods.{
  Engine, Instance, done, is_token_byte, keep_token_bytes, host_token, instance_labels,
  instance_pod, fatal_pod_reason, is_ready, Waited, ready, poll, wait_for_ready, err, not_started,
}

-- Some poll showed a Pod that is ready, has no fatal state, and has this address.
unfoldable pub ShowsReady : Bytes → ApiResult Pod → Type 0
ShowsReady ip r =
    (p : Pod) × (r ≡ ok p) × (is_ready p ≡ true) × (fatal_pod_reason p ≡ []) × (p.ip ≡ ip)

-- Some member has the property.
abbrev pub Some : {A : Type 0} → (A → Type 0) → List A → Type 0
Some P [] = ⊥
Some P (x ∷ xs) = P x ⊎ Some P xs

poll-ready : (r : ApiResult Pod) (ip : Bytes) → poll r ≡ some (ready ip) → ShowsReady ip r
unfolding poll ShowsReady
poll-ready (fail x) ip h = cc
poll-ready (ok p) ip h =
    (p, refl, ground arith, is_empty→eq (fatal_pod_reason p) (ground arith), ground arith)

last_poll :
    (first : ApiResult Pod) (ip : Bytes)
    → wait_for_ready first [] ≡ ready ip
    → poll first ≡ some (ready ip)
unfolding wait_for_ready
last_poll first ip h = ground arith

first_poll :
    (first next : ApiResult Pod) (polls : List (ApiResult Pod)) (ip : Bytes)
    → wait_for_ready first (next ∷ polls) ≡ ready ip
    → (poll first ≡ some (ready ip)) ⊎ (wait_for_ready next polls ≡ ready ip)
unfolding wait_for_ready
first_poll first next polls ip h = ground arith

-- An address is returned only if some poll showed the Pod running at it with no fatal state.
wait_for_ready-ready :
    (first : ApiResult Pod) (polls : List (ApiResult Pod)) (ip : Bytes)
    → wait_for_ready first polls ≡ ready ip
    → Some (ShowsReady ip) (first ∷ polls)
wait_for_ready-ready first [] ip h = inl (poll-ready first ip (last_poll first ip h))
wait_for_ready-ready first (next ∷ polls) ip h = elim (first_poll first next polls ip h) [
  | inl e ↦ inl (poll-ready first ip e)
  | inr e ↦ inr (wait_for_ready-ready next polls ip e)
]

-- The first poll that decides ends the wait, and its outcome is the result whatever comes later:
-- a fatal state is reported at once.
wait_for_ready-first :
    (before : List (ApiResult Pod)) (first r : ApiResult Pod) (after : List (ApiResult Pod))
    (w : Waited)
    → poll first ≡ none
    → All (λ x. poll x ≡ none) before
    → poll r ≡ some w
    → wait_for_ready first (before ++ r ∷ after) ≡ w
unfolding wait_for_ready
wait_for_ready-first [] first r [] w u us h = ground arith
wait_for_ready-first [] first r (x ∷ after) w u us h = ground arith
wait_for_ready-first (b ∷ before) first r after w u us h =
    ground (arith, wait_for_ready-first before b r after w us.0 us.1 h)

module _ (api : PodApi) (laws : PodLaws api) (e : Engine) where
  -- When the Pod cannot be brought up, the call returns the reason and, if its delete succeeds,
  -- leaves no Pod of that name behind, whatever happened to the cluster while it waited.
  pub failed_start_leaves_none :
      (now : ℤ) (ns name image : Bytes) (first : ApiResult Pod) (polls : List (ApiResult Pod))
      (meanwhile : api.Cluster → api.Cluster) (c : api.Cluster) (w : Waited)
      → (new_ephemeral_instance api e now ns name image first polls meanwhile c).1
        ≡ err (not_started w)
      → ((d : api.Cluster) → (api.delete_pod d ns name).1 ≡ none)
      → api.get_pod
          (new_ephemeral_instance api e now ns name image first polls meanwhile c).0
          ns
          name
        ≡ fail not_found
  unfolding new_ephemeral_instance
  failed_start_leaves_none now ns name image first polls meanwhile c w h ds =
      let pod = instance_pod e ns name (instance_labels e now) image name in
      let d = meanwhile (api.create_pod c pod).0 in ground (arith, laws.get-delete d ns name (ds d))

-- An instance that is returned has the new name and an address that some poll showed ready.
pub new_ephemeral_instance-ready :
    (api : PodApi) (e : Engine) (now : ℤ) (ns name image : Bytes) (first : ApiResult Pod)
    (polls : List (ApiResult Pod)) (meanwhile : api.Cluster → api.Cluster) (c : api.Cluster)
    (i : Instance)
    → (new_ephemeral_instance api e now ns name image first polls meanwhile c).1 ≡ done i
    → (i.name ≡ name) × Some (ShowsReady i.ip) (first ∷ polls)
unfolding new_ephemeral_instance
new_ephemeral_instance-ready api e now ns name image first polls meanwhile c i h =
    (ground arith, wait_for_ready-ready first polls i.ip (ground arith))

pub keep_token_bytes-all : (s : Bytes) → all is_token_byte (keep_token_bytes s) ≡ true
unfolding all keep_token_bytes
keep_token_bytes-all [] = refl
keep_token_bytes-all (c ∷ s) = ground (arith, keep_token_bytes-all s)

keep_token_bytes_self : (s : Bytes) → all is_token_byte s ≡ true → keep_token_bytes s ≡ s
unfolding all keep_token_bytes
keep_token_bytes_self [] h = refl
keep_token_bytes_self (c ∷ s) h = ground (arith, keep_token_bytes_self s)

token_or_default : Bytes → Bytes
token_or_default b = if is_empty b then codes "s0" else b

token_or_default_lem :
    (b : Bytes)
    → all is_token_byte b ≡ true
    → (all is_token_byte (token_or_default b) ≡ true) × (token_or_default b ≢ [])
unfolding token_or_default is_empty all is_token_byte
token_or_default_lem [] h = (refl, (λ e. cc))
token_or_default_lem (c ∷ b) h = (h, (λ e. cc))

host_token_self : (s : Bytes) → all is_token_byte s ≡ true → s ≢ [] → host_token s ≡ s
unfolding host_token is_empty
host_token_self [] h ne = absurd (ne refl)
host_token_self (c ∷ s) h ne = rw (keep_token_bytes_self (c ∷ s) h)

-- The session token of an environment is never empty, has only the bytes 0-9 and a-z that the
-- router's host pattern allows, and is a token that it makes no change to.
host_token_lem :
    (s : Bytes)
    → (all is_token_byte (host_token s) ≡ true)
      × (host_token s ≢ [])
      × (host_token (host_token s) ≡ host_token s)
unfolding host_token token_or_default
host_token_lem s =
    let (fits, filled) = token_or_default_lem (keep_token_bytes s) (keep_token_bytes-all s) in
    (fits, filled, host_token_self (host_token s) fits filled)
