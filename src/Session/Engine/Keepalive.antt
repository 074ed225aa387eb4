-- ===== src/Session/Engine/Keepalive.antt =====
-- The two deadlines of an instance: set at creation, slid by keepalives, reported by Status.
use training_platform.Shared.{
  Bytes, ℕ, ◌+◌, ◌/◌, ◌^◌, ◌≤◌, ◌<◌, ◌≡◌, ◌≢◌, refl, sym, ap, ◌∙◌, true, false, [], ◌∷◌, arith,
  if◌then◌else◌, str_eq,
}
use Prim.Native.Nat.{min}
use Prim.Native.Nat.{min}
use training_platform.Shared.Int.{ℤ, pos, ◌≤ℤ◌, ltb_ℤ}
use training_platform.Shared.Decimal.{sscanf_d, format_d, sscanf_d-format_d}
use training_platform.Shared.Table.{Table, insert, lookup}
use training_platform.Session.Expiry.{
  label, unix, sooner, effective_expiry, passed, expires_at_label, idle_expires_at_label,
  managed_by_label, managed_by_value, passed-effective_expiry, sooner-le_hard, idle_label_ne,
  label-insert_self, label-insert_ne,
}
use training_platform.Session.Api.{Pod, PodApi, PodLaws, ok}
use training_platform.Session.Engine.{extend, status, gc_expired_pods}
use training_platform.Session.Pods.{Engine, deadline, status_of, PodStatus, instance_labels}
use training_platform.Session.Engine.Collect.{gc_spares}

-- The labels that Extend computes its answer from.
abbrev slid_labels : Table Bytes → Bytes → Table Bytes
slid_labels labels idle =
    (expires_at_label, label labels expires_at_label) ∷ (idle_expires_at_label, idle) ∷ []

-- They have the deadlines of the patched Pod.
effective_expiry-slid_labels :
    (labels : Table Bytes) (idle : Bytes)
    → effective_expiry (slid_labels labels idle)
      ≡ effective_expiry (insert idle_expires_at_label idle labels)
unfolding effective_expiry
effective_expiry-slid_labels labels idle =
    rw
      (
        label-insert_self labels idle_expires_at_label idle,
        label-insert_ne labels idle_expires_at_label expires_at_label idle idle_label_ne,
      )
      (unfold label lookup expires_at_label idle_expires_at_label str_eq in refl)

-- The labels of a Pod after an Extend that succeeds: with idle collection off, those it had.
unfoldable pub extended_labels : Engine → ℤ → Table Bytes → Table Bytes
extended_labels e now labels =
    if ltb_ℤ (pos 0) e.idle_ttl
    then insert idle_expires_at_label (deadline now e.idle_ttl) labels
    else labels

module _ (api : PodApi) (laws : PodLaws api) (e : Engine) where
  -- A keepalive that succeeds slides the idle deadline of its Pod, or leaves the labels alone if
  -- idle collection is off, and returns the effective expiry of the Pod as it then is.
  pub extend_lem :
      (now : ℤ) (ns name : Bytes) (c : api.Cluster) (p : Pod) (exp : ℤ)
      → api.get_pod c ns name ≡ ok p
      → (extend api e now ns name c).1 ≡ ok exp
      → (api.get_pod (extend api e now ns name c).0 ns name
          ≡ ok (record p { labels = extended_labels e now p.labels }))
        × (exp ≡ effective_expiry (extended_labels e now p.labels))
  unfolding extend extended_labels
  extend_lem now ns name c p exp found h =
      let idle = deadline now e.idle_ttl in
      ground (
        arith,
        found,
        laws.get-patch c ns name idle_expires_at_label idle p,
        effective_expiry-slid_labels p.labels idle,
      )

  -- The expiry that a successful keepalive returns is the one that Status then reports.
  pub status-extend :
      (now : ℤ) (ns name : Bytes) (c : api.Cluster) (p : Pod) (exp : ℤ)
      → api.get_pod c ns name ≡ ok p
      → (extend api e now ns name c).1 ≡ ok exp
      → (st : PodStatus) × (status api e ns name (extend api e now ns name c).0 ≡ ok st)
        × (st.expires_at ≡ exp)
  unfolding status status_of
  status-extend now ns name c p exp found h =
      let (got, same) = extend_lem now ns name c p exp found h in
      (
        status_of name (record p { labels = extended_labels e now p.labels }),
        rw (got, status),
        sym same,
      )

hard_label_kept :
    (e : Engine) (now : ℤ) (labels : Table Bytes)
    → label (extended_labels e now labels) expires_at_label ≡ label labels expires_at_label
unfolding extended_labels
hard_label_kept e now labels = ground (
  arith,
  label-insert_ne labels idle_expires_at_label expires_at_label (deadline now e.idle_ttl)
      idle_label_ne,
)

module _ (api : PodApi) (laws : PodLaws api) (e : Engine) where
  -- Keepalives never move the hard cap, and never promise a life beyond it.
  pub extend-le_hard_cap :
      (now : ℤ) (ns name : Bytes) (c : api.Cluster) (p : Pod) (exp : ℤ)
      → api.get_pod c ns name ≡ ok p
      → (extend api e now ns name c).1 ≡ ok exp
      → sscanf_d (label p.labels expires_at_label) ≢ pos 0
      → (exp ≤ℤ sscanf_d (label p.labels expires_at_label))
        × ((q : Pod) × (api.get_pod (extend api e now ns name c).0 ns name ≡ ok q)
            × (label q.labels expires_at_label ≡ label p.labels expires_at_label))
  extend-le_hard_cap now ns name c p exp found h capped =
      let (got, same) = extend_lem api laws e now ns name c p exp found h in
      let labels = extended_labels e now p.labels in
      let kept : label labels expires_at_label ≡ label p.labels expires_at_label =
        hard_label_kept e now p.labels in
      (
        rw same (
            unfold effective_expiry in
            rw kept (
              sooner-le_hard (sscanf_d (label p.labels expires_at_label))
                (sscanf_d (label labels idle_expires_at_label)) capped)),
        (record p { labels = labels }, got, kept),
      )

-- The label of a deadline is read back as the deadline, rounded down to seconds.
sscanf_d-deadline :
    (t d : ℕ)
    → (t + d) / 10 ^ 9 < 2 ^ 63
    → sscanf_d (deadline (pos t) (pos d)) ≡ pos ((t + d) / 10 ^ 9)
unfolding deadline
sscanf_d-deadline t d h =
    let same : deadline (pos t) (pos d) ≡ format_d (pos ((t + d) / 10 ^ 9)) = ground arith in
    ap sscanf_d same ∙ sscanf_d-format_d ((t + d) / 10 ^ 9) h

idle_label_slid :
    (e : Engine) (now : ℤ) (labels : Table Bytes)
    → ltb_ℤ (pos 0) e.idle_ttl ≡ true
    → label (extended_labels e now labels) idle_expires_at_label ≡ deadline now e.idle_ttl
unfolding extended_labels
idle_label_slid e now labels on =
    ground (arith, label-insert_self labels idle_expires_at_label (deadline now e.idle_ttl))

not_passed : (exp now : ℕ) → now ≤ exp → passed (pos exp) (pos now) ≡ false
unfolding passed
not_passed exp now h = ground arith

-- After a keepalive at `t` the labels are not past a deadline in the idle window.
not_expired :
    (e : Engine) (t idle g : ℕ) (labels : Table Bytes)
    → e.idle_ttl ≡ pos idle
    → 0 < idle
    → (t + idle) / 10 ^ 9 < 2 ^ 63
    → g / 10 ^ 9 ≤ (t + idle) / 10 ^ 9
    → passed (sscanf_d (label labels expires_at_label)) (unix (pos g)) ≡ false
    → passed (effective_expiry (extended_labels e (pos t) labels)) (unix (pos g)) ≡ false
not_expired e t idle g labels window on fits soon alive =
    let new = extended_labels e (pos t) labels in
    let slid : label new idle_expires_at_label ≡ deadline (pos t) (pos idle) =
      idle_label_slid e (pos t) labels (ground arith) ∙ ap (deadline (pos t)) window in
    let second : unix (pos g) ≡ pos (g / 10 ^ 9) = unfold unix in refl in
    ground (
      arith,
      passed-effective_expiry new (unix (pos g)),
      hard_label_kept e (pos t) labels,
      slid,
      sscanf_d-deadline t idle fits,
      second,
      not_passed ((t + idle) / 10 ^ 9) (g / 10 ^ 9) soon,
    )

module _ (api : PodApi) (laws : PodLaws api) (e : Engine) where
  -- A Pod whose keepalive succeeded at `t` is left as it then is by the collection that runs next, at
  -- any time `g` whose second is at most that of `t` plus the idle window, if the hard cap has not
  -- passed at `g`, the window is on, and the deadline fits an int64.
  pub keepalive_protects :
      (t idle g : ℕ) (ns name : Bytes) (c : api.Cluster) (p : Pod) (exp : ℤ)
      → api.get_pod c ns name ≡ ok p
      → (extend api e (pos t) ns name c).1 ≡ ok exp
      → e.idle_ttl ≡ pos idle
      → 0 < idle
      → (t + idle) / 10 ^ 9 < 2 ^ 63
      → g / 10 ^ 9 ≤ (t + idle) / 10 ^ 9
      → passed (sscanf_d (label p.labels expires_at_label)) (unix (pos g)) ≡ false
      → (q : Pod) × (api.get_pod (extend api e (pos t) ns name c).0 ns name ≡ ok q)
        × (api.get_pod
              (gc_expired_pods api e (pos g) ns (extend api e (pos t) ns name c).0).0
              ns
              name
            ≡ ok q)
  keepalive_protects t idle g ns name c p exp found h window on fits soon alive =
      let (got, _) = extend_lem api laws e (pos t) ns name c p exp found h in
      let q : Pod = record p { labels = extended_labels e (pos t) p.labels } in
      let safe = not_expired e t idle g p.labels window on fits soon alive in
      (
        q,
        got,
        gc_spares api laws e (pos g) ns name (extend api e (pos t) ns name c).0 q got
            (λ k. cc (k.1, safe)),
      )

base_hard_label :
    (v w : Bytes) → label ((managed_by_label, v) ∷ (expires_at_label, w) ∷ []) expires_at_label ≡ w
unfolding label lookup str_eq managed_by_label expires_at_label
base_hard_label v w = refl

hard_label_new :
    (e : Engine) (now : ℤ) → label (instance_labels e now) expires_at_label ≡ deadline now e.ttl
unfolding instance_labels
hard_label_new e now =
    let base : Table Bytes =
      (managed_by_label, managed_by_value) ∷ (expires_at_label, deadline now e.ttl) ∷ [] in
    ground (
      arith,
      base_hard_label managed_by_value (deadline now e.ttl),
      label-insert_ne base idle_expires_at_label expires_at_label (deadline now e.idle_ttl)
          idle_label_ne,
    )

idle_label_new :
    (e : Engine) (now : ℤ)
    → ltb_ℤ (pos 0) e.idle_ttl ≡ true
    → label (instance_labels e now) idle_expires_at_label ≡ deadline now e.idle_ttl
unfolding instance_labels
idle_label_new e now on =
    let base : Table Bytes =
      (managed_by_label, managed_by_value) ∷ (expires_at_label, deadline now e.ttl) ∷ [] in
    ground (arith, label-insert_self base idle_expires_at_label (deadline now e.idle_ttl))

sooner-min : (a b : ℕ) → 0 < a → 0 < b → sooner (pos a) (pos b) ≡ pos (min a b)
unfolding sooner
sooner-min a b h k = ground arith

-- A new instance's labels carry the sooner of its hard cap and its idle window, in whole seconds,
-- through their decimal text, if both windows are on and the deadlines fit an int64.
effective_expiry-instance_labels :
    (e : Engine) (t ttl idle : ℕ)
    → e.ttl ≡ pos ttl
    → e.idle_ttl ≡ pos idle
    → 0 < idle
    → 10 ^ 9 ≤ t
    → (t + ttl) / 10 ^ 9 < 2 ^ 63
    → (t + idle) / 10 ^ 9 < 2 ^ 63
    → effective_expiry (instance_labels e (pos t))
      ≡ pos (min ((t + ttl) / 10 ^ 9) ((t + idle) / 10 ^ 9))
effective_expiry-instance_labels e t ttl idle cap window on late fits fits' =
    let hard = hard_label_new e (pos t) ∙ ap (deadline (pos t)) cap in
    let soft = idle_label_new e (pos t) (ground arith) ∙ ap (deadline (pos t)) window in
    unfold effective_expiry in
    rw (hard, soft, sscanf_d-deadline t ttl fits, sscanf_d-deadline t idle fits')
      (sooner-min _ _ (omega arith) (omega arith))
