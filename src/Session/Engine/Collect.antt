-- ===== src/Session/Engine/Collect.antt =====
-- Which Pods the collector of expired Pods deletes.
use training_platform.Shared.{
  Bytes, ℕ, ◌+◌, ◌≡◌, ◌≢◌, refl, sym, ap, subst, ◌∙◌, true, false, none, List, [], ◌∷◌, All, arith,
  Bool-cases, inl, inr, str_eq, str_eq_iff, length, if◌then◌else◌,
}
use training_platform.Shared.Int.{ℤ}
use training_platform.Session.Expiry.{
  label, managed_by_label, managed_by_value, effective_expiry, passed, unix,
}
use training_platform.Session.Api.{Pod, PodApi, PodLaws, ApiResult, ok, fail, not_found}
use training_platform.Session.Engine.{collect_pods, gc_expired_pods}
use training_platform.Session.Pods.{Engine}

-- A Pod that the collector may delete.
abbrev pub IsCollectable : ℤ → Pod → Type 0
IsCollectable now p =
    (label p.labels managed_by_label ≡ managed_by_value)
    × (passed (effective_expiry p.labels) (unix now) ≡ true)

module _ (api : PodApi) (laws : PodLaws api) (e : Engine) where
  -- A Pod that no expired entry of the list names is not touched.
  collect_pods_spares :
      (now : ℤ) (ns m : Bytes) (ps : List Pod) (c : api.Cluster)
      → All (λ p. passed (effective_expiry p.labels) now ≡ true → p.name ≢ m) ps
      → api.get_pod (collect_pods api e now ns ps c).0 ns m ≡ api.get_pod c ns m
  unfolding collect_pods
  collect_pods_spares now ns m [] c h = refl
  collect_pods_spares now ns m (p ∷ ps) c h =
      elim (Bool-cases (passed (effective_expiry p.labels) now)) [
        | inl y ↦
            rw (y, collect_pods)
              (collect_pods_spares now ns m ps (api.delete_pod c ns p.name).0 h.1
                ∙ laws.get-delete_ne c ns p.name m (h.0 y))
        | inr n ↦ rw (n, collect_pods) (collect_pods_spares now ns m ps c h.1)
      ]

  -- A pod that fails `IsCollectable` is named by no expired entry of a list of Pods as they are.
  no_entry :
      (now : ℤ) (ns m : Bytes) (c : api.Cluster) (p : Pod) (ps : List Pod)
      → api.get_pod c ns m ≡ ok p
      → ¬ IsCollectable now p
      → All
          (λ q.
            (api.get_pod c ns q.name ≡ ok q) × (label q.labels managed_by_label ≡ managed_by_value))
          ps
      → All (λ q. passed (effective_expiry q.labels) (unix now) ≡ true → q.name ≢ m) ps
  no_entry now ns m c p [] e safe h = tt
  no_entry now ns m c p (q ∷ ps) e safe h = (
    (λ expired same.
        let e' : ok q ≡ ok p = sym h.0.0 ∙ (ap (api.get_pod c ns) same ∙ e) in
        let same_pod : q ≡ p = cc in safe (subst (IsCollectable now) same_pod (h.0.1, expired))),
    no_entry now ns m c p ps e safe h.1,
  )

  -- A run of the collector leaves every Pod as it is that is not managed by the platform, or that
  -- has neither of its deadlines behind it; whatever else it deletes or fails to delete.
  pub gc_spares :
      (now : ℤ) (ns m : Bytes) (c : api.Cluster) (p : Pod)
      → api.get_pod c ns m ≡ ok p
      → ¬ IsCollectable now p
      → api.get_pod (gc_expired_pods api e now ns c).0 ns m ≡ ok p
  unfolding gc_expired_pods
  gc_spares now ns m c p found safe = go (api.list_pods c ns) refl
    where
      go :
          (r : ApiResult (List Pod))
          → api.list_pods c ns ≡ r
          → api.get_pod (gc_expired_pods api e now ns c).0 ns m ≡ ok p
      go (fail x) q = rw (q, gc_expired_pods) found
      go (ok ps) q =
          rw (q, gc_expired_pods)
            (collect_pods_spares (unix now) ns m ps c
                (no_entry now ns m c p ps found safe (laws.listed c ns ps q))
              ∙ found)

  -- Every delete call succeeds.
  abbrev pub DeletesSucceed : Bytes → Type 0
  DeletesSucceed ns = (c : api.Cluster) (m : Bytes) → (api.delete_pod c ns m).1 ≡ none

  -- How many entries of the list are expired.
  unfoldable count_expired : ℤ → List Pod → ℕ
  count_expired now [] = 0
  count_expired now (p ∷ ps) = elim (passed (effective_expiry p.labels) now) [
    | true ↦ count_expired now ps + 1
    | false ↦ count_expired now ps
  ]

  collect_pods-count :
      (now : ℤ) (ns : Bytes) (ps : List Pod) (c : api.Cluster)
      → DeletesSucceed ns
      → (collect_pods api e now ns ps c).1 ≡ count_expired now ps
  unfolding collect_pods count_expired
  collect_pods-count now ns [] c ds = refl
  collect_pods-count now ns (p ∷ ps) c ds = ground (
    arith,
    ds c p.name,
    collect_pods-count now ns ps c ds,
    collect_pods-count now ns ps (api.delete_pod c ns p.name).0 ds,
  )

  -- What is gone stays gone.
  collect_pods_gone :
      (now : ℤ) (ns m : Bytes) (ps : List Pod) (c : api.Cluster)
      → DeletesSucceed ns
      → api.get_pod c ns m ≡ fail not_found
      → api.get_pod (collect_pods api e now ns ps c).0 ns m ≡ fail not_found
  unfolding collect_pods
  collect_pods_gone now ns m [] c ds h = h
  collect_pods_gone now ns m (p ∷ ps) c ds h =
      elim (Bool-cases (passed (effective_expiry p.labels) now)) [
        | inl y ↦
            rw (y, collect_pods)
              (collect_pods_gone now ns m ps (api.delete_pod c ns p.name).0 ds
                (elim (Bool-cases (str_eq p.name m)) [
                  | inl same ↦
                      let e' : p.name ≡ m = (str_eq_iff p.name m).0 same in
                      rw e' (laws.get-delete c ns m (ds c m))
                  | inr other ↦
                      laws.get-delete_ne c ns p.name m (λ q. ground (arith, str_eq_iff p.name m))
                      ∙ h
                ]))
        | inr n ↦ rw (n, collect_pods) (collect_pods_gone now ns m ps c ds h)
      ]

  -- In the cluster `d`, each expired Pod of the list is gone.
  abbrev AllGone : ℤ → Bytes → List Pod → api.Cluster → Type 0
  AllGone now ns ps d =
      All
        (λ p.
          passed (effective_expiry p.labels) now ≡ true → api.get_pod d ns p.name ≡ fail not_found)
        ps

  collect_expired :
      (now : ℤ) (ns : Bytes) (p : Pod) (ps : List Pod) (c : api.Cluster)
      → passed (effective_expiry p.labels) now ≡ true
      → (collect_pods api e now ns ps (api.delete_pod c ns p.name).0).0
        ≡ (collect_pods api e now ns (p ∷ ps) c).0
  unfolding collect_pods
  collect_expired now ns p ps c y = rw (y, collect_pods)

  collect_live :
      (now : ℤ) (ns : Bytes) (p : Pod) (ps : List Pod) (c : api.Cluster)
      → passed (effective_expiry p.labels) now ≡ false
      → (collect_pods api e now ns ps c).0 ≡ (collect_pods api e now ns (p ∷ ps) c).0
  unfolding collect_pods
  collect_live now ns p ps c y = rw (y, collect_pods)

  collect_pods_takes :
      (now : ℤ) (ns : Bytes) (ps : List Pod) (c : api.Cluster)
      → DeletesSucceed ns
      → AllGone now ns ps (collect_pods api e now ns ps c).0
  collect_pods_takes now ns [] c ds = tt
  collect_pods_takes now ns (p ∷ ps) c ds =
      elim (Bool-cases (passed (effective_expiry p.labels) now)) [
        | inl y ↦
            let c' = (api.delete_pod c ns p.name).0 in
            subst (AllGone now ns (p ∷ ps)) (collect_expired now ns p ps c y) (
              (λ _.
                  collect_pods_gone now ns p.name ps c' ds
                    (laws.get-delete c ns p.name (ds c p.name))),
              collect_pods_takes now ns ps c' ds,
            )
        | inr n ↦
            subst (AllGone now ns (p ∷ ps)) (collect_live now ns p ps c n)
              ((λ y. cc), collect_pods_takes now ns ps c ds)
      ]

  gc_expired_pods-collect :
      (now : ℤ) (ns : Bytes) (c : api.Cluster) (ps : List Pod)
      → api.list_pods c ns ≡ ok ps
      → (gc_expired_pods api e now ns c)
        ≡ ((collect_pods api e (unix now) ns ps c).0, ok (collect_pods api e (unix now) ns ps c).1)
  unfolding gc_expired_pods
  gc_expired_pods-collect now ns c ps q = rw (q, gc_expired_pods)

  -- The Pods of a list that are past a deadline.
  unfoldable pub expired : ℤ → List Pod → List Pod
  expired now [] = []
  expired now (p ∷ ps) =
      let rest = expired now ps in if passed (effective_expiry p.labels) now then p ∷ rest else rest

  count_expired-length : (now : ℤ) (ps : List Pod) → count_expired now ps ≡ length (expired now ps)
  unfolding count_expired expired
  count_expired-length now [] = refl
  count_expired-length now (p ∷ ps) = ground (arith, count_expired-length now ps)

  gone_expired :
      (now : ℤ) (ns : Bytes) (ps : List Pod) (d : api.Cluster)
      → AllGone now ns ps d
      → All (λ p. api.get_pod d ns p.name ≡ fail not_found) (expired now ps)
  unfolding expired
  gone_expired now ns [] d h = tt
  gone_expired now ns (p ∷ ps) d h = elim (Bool-cases (passed (effective_expiry p.labels) now)) [
    | inl y ↦ rw (y, expired) (h.0 y, gone_expired now ns ps d h.1)
    | inr n ↦ rw (n, expired) (gone_expired now ns ps d h.1)
  ]

  -- If the list call and every delete call succeed, a run of the collector deletes each listed Pod
  -- that is past a deadline, and returns how many these are.
  pub gc_deletes_expired :
      (now : ℤ) (ns : Bytes) (c : api.Cluster) (ps : List Pod)
      → api.list_pods c ns ≡ ok ps
      → DeletesSucceed ns
      → ((gc_expired_pods api e now ns c).1 ≡ ok (length (expired (unix now) ps)))
        × All
            (λ p. api.get_pod (gc_expired_pods api e now ns c).0 ns p.name ≡ fail not_found)
            (expired (unix now) ps)
  gc_deletes_expired now ns c ps q ds = rw (gc_expired_pods-collect now ns c ps q) (
    ap ok (collect_pods-count (unix now) ns ps c ds ∙ count_expired-length (unix now) ps),
    gone_expired (unix now) ns ps _ (collect_pods_takes (unix now) ns ps c ds),
  )
