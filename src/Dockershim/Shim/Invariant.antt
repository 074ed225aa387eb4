-- ===== src/Dockershim/Shim/Invariant.antt =====
-- What stays true of the shim whatever sections run: the cache of names is transparent.
use training_platform.Shared.{
  Bytes, ℕ, ◌≡◌, refl, sym, subst, some, List, [], ◌∷◌, str_eq_iff, ◌⊎◌, arith, Option-cases, inl,
  inr,
}
use training_platform.Shared.Table.{Table, lookup, insert, lookup-insert}
use training_platform.Dockershim.Names.{Sha1, sanitize_k8s_name}
use training_platform.Dockershim.Shim.{
  CreateRequest, Shim, new_shim, ShimApi, k8s_pod_name, pod_of, note_created, network_connect,
  forget_container, Section, names_pod, adds_pending, adds_exec, notes_created, connects, forgets,
  run_section, run_sections, start_container, delete_pod,
}

pod_name-note_created :
    (d : Bytes) (spec : CreateRequest) (s : Shim) → (note_created d spec s).pod_name ≡ s.pod_name
unfolding note_created
pod_name-note_created d spec s = ground arith

-- What a start notes of the networks depends on nothing else.
net_members-note_created :
    (d : Bytes) (spec : CreateRequest) (s t : Shim)
    → s.net_members ≡ t.net_members
    → (note_created d spec s).net_members ≡ (note_created d spec t).net_members
unfolding note_created
net_members-note_created d spec s t h = ground (arith, h)

module _ (sha : Sha1) (lower_runes : Bytes → List ℕ) where
  -- Every cached name is the one that would be computed.
  abbrev pub IsCache : Table Bytes → Type 0
  IsCache names = (d n : Bytes) → lookup d names ≡ some n → n ≡ sanitize_k8s_name sha lower_runes d

  abbrev pub IsShim : Shim → Type 0
  IsShim s = IsCache s.pod_name

  pub new_shim-IsShim : IsShim new_shim
  unfolding new_shim lookup
  new_shim-IsShim d n e = cc

  insert-IsCache :
      (names : Table Bytes) (d : Bytes)
      → IsCache names
      → IsCache (insert d (sanitize_k8s_name sha lower_runes d) names)
  insert-IsCache names d h j n e =
      ground (
        arith,
        lookup-insert d j (sanitize_k8s_name sha lower_runes d) names,
        str_eq_iff d j,
        h j n,
      )

  -- The name of a container's Pod is the sanitized one, cached or not; only the cache changes.
  pub k8s_pod_name_lem :
      (s : Shim) (d : Bytes)
      → IsCache s.pod_name
      → let (s', name) = k8s_pod_name sha lower_runes s d in
        (name ≡ sanitize_k8s_name sha lower_runes d)
        × IsCache s'.pod_name
        × (s' ≡ record s { pod_name = s'.pod_name })
  unfolding k8s_pod_name
  k8s_pod_name_lem s d h = elim (Option-cases (lookup d s.pod_name)) [
    | inl e ↦ rw (e, k8s_pod_name) (refl, insert-IsCache s.pod_name d h, refl)
    | inr (n, e) ↦ rw (e, k8s_pod_name) (h d n e, h, refl)
  ]

  pub k8s_pod_name-IsShim :
      (s : Shim) (d : Bytes) → IsShim s → IsShim (k8s_pod_name sha lower_runes s d).0
  k8s_pod_name-IsShim s d h = (k8s_pod_name_lem s d h).1

  pub note_created-IsShim :
      (d : Bytes) (spec : CreateRequest) (s : Shim) → IsShim s → IsShim (note_created d spec s)
  note_created-IsShim d spec s h = subst IsCache (sym (pod_name-note_created d spec s)) h

  run_section-IsShim :
      (x : Section) (s : Shim) → IsShim s → IsShim (run_section sha lower_runes x s)
  unfolding run_section network_connect forget_container
  run_section-IsShim (names_pod d) s h = k8s_pod_name-IsShim s d h
  run_section-IsShim (adds_pending d spec) s h = h
  run_section-IsShim (adds_exec id entry) s h = h
  run_section-IsShim (notes_created d spec) s h = note_created-IsShim d spec s h
  run_section-IsShim (connects d net) s h = h
  run_section-IsShim (forgets d) s h = h

  -- Whatever other requests do meanwhile, the cache stays transparent.
  pub run_sections-IsShim :
      (xs : List Section) (s : Shim) → IsShim s → IsShim (run_sections sha lower_runes xs s)
  unfolding run_sections
  run_sections-IsShim [] s h = h
  run_sections-IsShim (x ∷ xs) s h = run_sections-IsShim xs _ (run_section-IsShim x s h)

  run_section-net_members :
      (x : Section) (s t : Shim)
      → s.net_members ≡ t.net_members
      → (run_section sha lower_runes x s).net_members
        ≡ (run_section sha lower_runes x t).net_members
  unfolding run_section network_connect forget_container k8s_pod_name
  run_section-net_members (names_pod d) s t h = ground (arith, h)
  run_section-net_members (adds_pending d spec) s t h = h
  run_section-net_members (adds_exec id entry) s t h = h
  run_section-net_members (notes_created d spec) s t h = net_members-note_created d spec s t h
  run_section-net_members (connects d net) s t h = ground (arith, h)
  run_section-net_members (forgets d) s t h = h

  -- What they do to the networks depends on nothing else.
  pub run_sections-net_members :
      (xs : List Section) (s t : Shim)
      → s.net_members ≡ t.net_members
      → (run_sections sha lower_runes xs s).net_members
        ≡ (run_sections sha lower_runes xs t).net_members
  unfolding run_sections
  run_sections-net_members [] s t h = h
  run_sections-net_members (x ∷ xs) s t h =
      run_sections-net_members xs _ _ (run_section-net_members x s t h)

  module _ (api : ShimApi) where
    -- A start leaves the shim alone, or names the Pod after what others did, or notes as well that
    -- it was created, after what others did.
    start_container_cases :
        (meanwhile : ℕ → List Section) (s : Shim) (c : api.Cluster) (d : Bytes)
        → let s' = (start_container sha lower_runes api meanwhile s c d).0 in
          let named =
            (k8s_pod_name sha lower_runes (run_sections sha lower_runes (meanwhile 1) s) d).0 in
          (s' ≡ s)
          ⊎ (s' ≡ named)
          ⊎ ((spec : CreateRequest) × (s'
                ≡ note_created d spec (run_sections sha lower_runes (meanwhile 2) named)))
    unfolding start_container
    start_container_cases meanwhile s c d = elim (Option-cases (lookup d s.pending)) [
      | inl e ↦ inl (rw (e, start_container) refl)
      | inr (spec, e) ↦
          let (named, pod_name) =
            k8s_pod_name sha lower_runes (run_sections sha lower_runes (meanwhile 1) s) d in
          elim (Option-cases (api.create_pod c (pod_of pod_name spec)).1) [
            | inl k ↦ inr (inr (spec, ground (arith, e, k)))
            | inr (_, k) ↦ inr (inl (ground (arith, e, k)))
          ]
    ]

    pub start_container-IsShim :
        (meanwhile : ℕ → List Section) (s : Shim) (c : api.Cluster) (d : Bytes)
        → IsShim s
        → IsShim (start_container sha lower_runes api meanwhile s c d).0
    start_container-IsShim meanwhile s c d h =
        let named = k8s_pod_name-IsShim _ d (run_sections-IsShim (meanwhile 1) s h) in
        elim (start_container_cases meanwhile s c d) [
          | inl same ↦ subst IsShim (sym same) h
          | inr (inl same) ↦ subst IsShim (sym same) named
          | inr (inr (spec, same)) ↦
              subst IsShim (sym same)
                (note_created-IsShim d spec _ (run_sections-IsShim (meanwhile 2) _ named))
        ]

    shim-delete_pod :
        (s : Shim) (c : api.Cluster) (d : Bytes)
        → (delete_pod sha lower_runes api s c d).0 ≡ (k8s_pod_name sha lower_runes s d).0
    unfolding delete_pod
    shim-delete_pod s c d = ground arith

    pub delete_pod-IsShim :
        (s : Shim) (c : api.Cluster) (d : Bytes)
        → IsShim s
        → IsShim (delete_pod sha lower_runes api s c d).0
    delete_pod-IsShim s c d h =
        subst IsShim (sym (shim-delete_pod s c d)) (k8s_pod_name-IsShim s d h)
