-- ===== src/Reconciler/Restore/Nothing.antt =====
-- `restoreManagedWorkloads` without a namespace.
use lightsout.Base.{
  String, ◌≡◌, refl, ap, inl, inr, none, List, [], ◌∷◌, arith, keep, ok, err, Option-cases, ◌⊎◌,
  ◌==◌, if◌then◌else◌,
}
use lightsout.Constants.{default_argo_cd_namespace, default_flux_cd_namespace}
use lightsout.Base.Int.{ℤ}
use lightsout.Api.{ScheduleCore, CustomResourceConfig, ArgoCdConfig, FluxCdConfig}
use lightsout.Kube.Objects.{App, FluxResource}
use lightsout.Kube.Cluster.{Cluster, FluxKind, kustomization, helm_release, Listing-cases}
use lightsout.GitOps.ArgoCd.{is_targeted, discover_argo_cd_apps}
use lightsout.GitOps.FluxCd.Discover.{
  Found, going, crd_missing, failed, add_items, deploys_to_target, search_namespaces, search_kind,
  discover_flux_resources,
}
use lightsout.CustomResource.{release_each, restore_all_custom_resources}
use lightsout.CustomResource.Access.{Resources, discover_custom_resources}
use lightsout.Reconciler.Server.{Lists}
use lightsout.Reconciler.Restore.{
  restore_namespaces, unlabel_each, resume_each, restore_apps, restore_flux,
  restore_managed_workloads,
}

abbrev argo_cd_namespace : ArgoCdConfig → String
argo_cd_namespace a = if a.namespace == "" then default_argo_cd_namespace else a.namespace

abbrev flux_cd_namespace : FluxCdConfig → String
flux_cd_namespace a = if a.namespace == "" then default_flux_cd_namespace else a.namespace

none_targeted : (apps : List App) → keep (is_targeted []) apps ≡ []
none_targeted [] = refl
none_targeted (o ∷ apps) = elim (Option-cases o.destination_namespace) [
  | inl e ↦ rw e (none_targeted apps)
  | inr (ns, e) ↦ rw e (none_targeted apps)
]

add_items-none :
    (items : List FluxResource) (f : Found) → add_items (deploys_to_target []) items f ≡ f
unfolding add_items
add_items-none [] f = refl
add_items-none (o ∷ more) f = ground (arith, add_items-none more f)

module _ (c : Cluster) (r : Resources c) (l : Lists c) (core : ScheduleCore)
    (schedule_name : String) (s : c.client.State) where
  discover_apps-nil :
      (a : ArgoCdConfig)
      → (discover_argo_cd_apps c a [] s ≡ ok [])
        ⊎ ((e : String) × (discover_argo_cd_apps c a [] s ≡ err e))
  unfolding discover_argo_cd_apps
  discover_apps-nil a = elim (Listing-cases (c.list_apps (argo_cd_namespace a) s)) [
    | inl (apps, e) ↦ inl (rw (e, discover_argo_cd_apps) (ap ok (none_targeted apps)))
    | inr (inl e) ↦ inl (rw (e, discover_argo_cd_apps) refl)
    | inr (inr (x, e)) ↦ inr (x, rw (e, discover_argo_cd_apps) refl)
  ]

  restore_apps-nil : restore_apps c r l core schedule_name [] s ≡ s
  unfolding restore_apps unlabel_each
  restore_apps-nil = elim (Option-cases core.argo_cd) [
    | inl e ↦ rw (e, restore_apps) refl
    | inr (a, e) ↦ elim (discover_apps-nil a) [
      | inl found ↦ rw (e, restore_apps) (rw (found, restore_apps) refl)
      | inr (x, found) ↦ rw (e, restore_apps) (rw (found, restore_apps) refl)
    ]
  ]

  search_kind-nil :
      (kind : FluxKind) (flux_ns : String) (f : Found)
      → (search_kind c s kind flux_ns [] f ≡ going f)
        ⊎ (search_kind c s kind flux_ns [] f ≡ crd_missing)
        ⊎ ((e : String) × (search_kind c s kind flux_ns [] f ≡ failed e))
  unfolding search_kind search_namespaces
  search_kind-nil kind flux_ns f = elim (Listing-cases (c.list_flux kind none s)) [
    | inl (items, e) ↦ inl (rw (e, search_kind) (ap going (add_items-none items f)))
    | inr (inl e) ↦ inr (inl (rw (e, search_kind) refl))
    | inr (inr (x, e)) ↦ inr (inr (x, rw (e, search_kind) refl))
  ]

  discover_flux-nil :
      (a : FluxCdConfig)
      → (discover_flux_resources c a [] s ≡ ok [])
        ⊎ ((e : String) × (discover_flux_resources c a [] s ≡ err e))
  unfolding discover_flux_resources
  discover_flux-nil a =
      let start : Found = record { seen = []; matched = [] } in
      elim (search_kind-nil kustomization (flux_cd_namespace a) start) [
        | inr (inl e) ↦ inl (rw (e, discover_flux_resources) refl)
        | inr (inr (x, e)) ↦ inr (x, rw (e, discover_flux_resources) refl)
        | inl e ↦ elim (search_kind-nil helm_release (flux_cd_namespace a) start) [
          | inl e2 ↦ inl (rw (e, discover_flux_resources) (rw (e2, discover_flux_resources) refl))
          | inr (inl e2) ↦
              inl (rw (e, discover_flux_resources) (rw (e2, discover_flux_resources) refl))
          | inr (inr (x, e2)) ↦
              inr (x, rw (e, discover_flux_resources) (rw (e2, discover_flux_resources) refl))
        ]
      ]

  restore_flux-nil : restore_flux c r l core schedule_name [] s ≡ s
  unfolding restore_flux resume_each
  restore_flux-nil = elim (Option-cases core.flux_cd) [
    | inl e ↦ rw (e, restore_flux) refl
    | inr (a, e) ↦ elim (discover_flux-nil a) [
      | inl found ↦ rw (e, restore_flux) (rw (found, restore_flux) refl)
      | inr (x, found) ↦ rw (e, restore_flux) (rw (found, restore_flux) refl)
    ]
  ]

  restore_all-nil :
      (cfgs : List CustomResourceConfig) (now : ℤ)
      → restore_all_custom_resources c r cfgs schedule_name [] now s ≡ ([], s)
  unfolding restore_all_custom_resources discover_custom_resources release_each
  restore_all-nil [] now = refl
  restore_all-nil (cfg ∷ more) now = rw (restore_all-nil more now) (ground arith)

  -- Without a namespace a restore touches nothing and reports nothing.
  pub restore-nil :
      (now : ℤ) → restore_managed_workloads c r l core schedule_name [] now s ≡ ([], s)
  unfolding restore_managed_workloads restore_namespaces
  restore-nil now =
      rw (restore_apps-nil, restore_flux-nil, restore_all-nil core.custom_resources now)
        (ground arith)
