-- ===== src/Reconciler/Orphans.antt =====
-- `discoverOrphanedNamespaces` and `releaseOrphanedNamespaces` of
-- internal/controller/lightsoutschedule_controller.go: the namespaces that left a schedule while it
-- still owns workloads in them.
pub mod Laws
use lightsout.Base.{String, Bool, true, none, List, [], ◌∷◌, contains}
use lightsout.Base.{Result, ok, err, if◌then◌else◌}
use lightsout.Base.Names.{sort_names}
use lightsout.Base.Dict.{Dict, insert}
use lightsout.Api.{ScheduleCore}
use lightsout.Kube.Objects.{ObjectMeta}
use lightsout.Kube.Cluster.{Cluster}
use lightsout.Namespaces.{keys}
use lightsout.CustomResource.Access.{Resources}
use lightsout.Reconciler.Server.{Lists}
use lightsout.Reconciler.Restore.{restore_managed_workloads}

-- The function `add`; `active` is the set of the targets.
abbrev pub add_orphan : List String → Dict Bool → String → Dict Bool
add_orphan targets orphaned ns = if contains targets ns then orphaned else insert ns true orphaned

-- The loop over the items of a list.
unfoldable pub add_orphans :
    {Obj : Type 0} → List String → (Obj → ObjectMeta) → List Obj → Dict Bool → Dict Bool
add_orphans targets meta_of [] orphaned = orphaned
add_orphans targets meta_of (o ∷ os) orphaned =
    add_orphans targets meta_of os (add_orphan targets orphaned (meta_of o).namespace)

module _ (c : Cluster) (l : Lists c) where
  -- `discoverOrphanedNamespaces`
  unfoldable pub discover_orphaned_namespaces :
      String → List String → c.client.State → Result (List String)
  discover_orphaned_namespaces schedule_name targets s = elim (l.deployments none schedule_name s) [
    | err e ↦ err e
    | ok ds ↦ elim (l.stateful_sets none schedule_name s) [
      | err e ↦ err e
      | ok ts ↦ elim (l.cron_jobs none schedule_name s) [
        | err e ↦ err e
        | ok js ↦
            let d1 = add_orphans targets (λ d. d.meta) ds [] in
            let d2 = add_orphans targets (λ t. t.meta) ts d1 in
            ok (sort_names (keys (add_orphans targets (λ j. j.meta) js d2)))
      ]
    ]
  ]

  -- `releaseOrphanedNamespaces`: errors are logged alone.
  unfoldable pub release_orphaned_namespaces :
      Resources c → ScheduleCore → String → List String → c.client.State → c.client.State
  release_orphaned_namespaces r core schedule_name targets s =
      elim (discover_orphaned_namespaces schedule_name targets s) [
        | err e ↦ s
        | ok [] ↦ s
        | ok (ns ∷ more) ↦
            (restore_managed_workloads c r l core schedule_name (ns ∷ more) (l.now s) s).1
      ]
