-- ===== src/GitOps/FluxCd/Discover/Laws.antt =====
-- What `DiscoverFluxResources` returns.
use lightsout.Base.{
  String, ◌≡◌, ◌⊎◌, refl, true, none, some, List, [], ◌∷◌, arith, contains, All, map, all, inl, inr,
}
use lightsout.Base.{ok}
use lightsout.Kube.Objects.{FluxResource}
use lightsout.Kube.Cluster.{Cluster, FluxKind, kustomization, helm_release, listed, no_match}
use lightsout.Api.{FluxCdConfig}
use lightsout.GitOps.FluxCd.Discover.{
  resource_key, Found, add_items, deploys_to_target, deploys_at_home, search_kind,
  discover_flux_resources,
}
use lightsout.GitOps.FluxCd.Discover.Kept.{
  are_distinct, IsKept, add_items-IsKept, IsFit, add_items-scoped, deploys_in, Holds-going,
  search_kind-Holds, discover-ok, nothing, flux_namespace, deployment_namespace,
}

module _ (c : Cluster) (cfg : FluxCdConfig) (targets : List String) (s : c.client.State)
    (rs : List FluxResource) where
  -- An invariant of the variables holds of what a search returns.
  discover_inv :
      (P : Found → Type 0)
      → ((items : List FluxResource) (g : Found)
          → P g
          → P (add_items (deploys_to_target targets) items g))
      → ((kind : FluxKind) (ns : String) (items : List FluxResource) (g : Found)
          → contains targets ns ≡ true
          → c.list_flux kind (some ns) s ≡ listed items
          → P g
          → P (add_items deploys_at_home items g))
      → P nothing
      → discover_flux_resources c cfg targets s ≡ ok rs
      → (rs ≡ []) ⊎ ((g : Found) × P g × (rs ≡ g.matched))
  discover_inv P first step start h = elim (discover-ok c cfg targets s rs h) [
    | inl e ↦ inl e
    | inr (f, g, e, e2, same) ↦
        let flux_ns = flux_namespace cfg in
        let half =
          Holds-going
            (search_kind-Holds c s P kustomization flux_ns targets nothing first
              (step kustomization) start)
            e in
        inr (
          g,
          Holds-going
              (search_kind-Holds c s P helm_release flux_ns targets f first (step helm_release)
                half)
              e2,
          same,
        )
  ]

  -- No two resources that a discovery returns have the same namespace and name. So each is handled
  -- at most once; and of a Kustomization and a HelmRelease of one name only one is handled at all.
  discovered_keys_distinct :
      discover_flux_resources c cfg targets s ≡ ok rs → are_distinct (map resource_key rs) ≡ true
  discovered_keys_distinct h =
      elim (discover_inv IsKept (add_items-IsKept (deploys_to_target targets))
        (λ kind ns items g m e k. add_items-IsKept deploys_at_home items g k)
        (record { seen = λ k. refl; distinct = refl }) h) [
          | inl e ↦ rw e refl
          | inr (g, kept, e) ↦ rw e kept.distinct
        ]

  IsFit-targets :
      (items : List FluxResource) → All (IsFit targets (deploys_to_target targets)) items
  IsFit-targets [] = tt
  IsFit-targets (o ∷ more) = (λ h. ground arith, IsFit-targets more)

  IsFit-home :
      (ns : String) (items : List FluxResource)
      → contains targets ns ≡ true
      → All (λ o. o.meta.namespace ≡ ns) items
      → All (IsFit targets deploys_at_home) items
  IsFit-home ns [] m h = tt
  IsFit-home ns (o ∷ more) m h =
      (λ w. let at_home = h.0 in let own = m in rw (w, at_home) own, IsFit-home ns more m h.1)

  -- Where the list of a namespace holds objects of that namespace alone, every resource that a
  -- discovery returns deploys into a target namespace: the one that it names, or its own.
  pub discovered_in_targets :
      ((kind : FluxKind) (ns : String) (items : List FluxResource)
        → c.list_flux kind (some ns) s ≡ listed items
        → All (λ o. o.meta.namespace ≡ ns) items)
      → discover_flux_resources c cfg targets s ≡ ok rs
      → all (λ o. contains targets (deployment_namespace o)) rs ≡ true
  discovered_in_targets local h =
      elim (discover_inv (λ f. all (deploys_in targets) f.matched ≡ true)
        (λ items g k.
          add_items-scoped targets (deploys_to_target targets) items g (IsFit-targets items) k)
        (λ kind ns items g m e k.
          add_items-scoped targets deploys_at_home items g
            (IsFit-home ns items m (local kind ns items e)) k)
        refl h) [ inl e ↦ rw e refl | inr (g, kept, e) ↦ rw e kept ]

  -- Where the cluster lacks HelmReleases, a discovery returns no resource, whatever Kustomizations
  -- it found before.
  no_helm_discovered_none :
      c.list_flux helm_release none s ≡ no_match
      → discover_flux_resources c cfg targets s ≡ ok rs
      → rs ≡ []
  unfolding search_kind
  no_helm_discovered_none missing h = elim (discover-ok c cfg targets s rs h) [
    | inl e ↦ e
    | inr (f, g, e, e2, same) ↦ let k = rw (missing, search_kind) at e2 in cc
  ]
