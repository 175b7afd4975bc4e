-- ===== src/Reconciler/Global.antt =====
-- `LightsOutScheduleReconciler` of internal/controller/lightsoutschedule_controller.go.
use lightsout.Base.{String, ◌<>◌, false, not, none, some, List, []}
use lightsout.Base.{ok, err, if◌then◌else◌}
use lightsout.Base.Int.{ℤ, pos}
use lightsout.Constants.{finalizer_name}
use lightsout.Api.{Schedule}
use lightsout.Kube.Cluster.{Cluster}
use lightsout.Namespaces.{discover_namespaces, filter_namespaces_with_local_schedules}
use lightsout.Period.{Calendar, PeriodCache, PeriodResult}
use lightsout.Termination.{check_termination}
use lightsout.CustomResource.Access.{Resources}
use lightsout.Status.{ScheduleStatus, Stored}
use lightsout.Reconciler.Server.{Store, Lists, Util, fetched, not_found, get_failed}
use lightsout.Reconciler.Restore.{restore_managed_workloads}
use lightsout.Reconciler.Orphans.{release_orphaned_namespaces}
use lightsout.Reconciler.Cycle.{
  Target, scales_up, Cycle, cycled, pass_failed, run_cycle, next_status, state_value, answer_of,
}
use lightsout.Reconciler.Steps.{
  Reconciled, answered, after_status, period_of, register, end_deletion, with_failure, fail,
}

abbrev pub StoredSchedule : Type 0
StoredSchedule = Stored Schedule ScheduleStatus

-- A global schedule takes no workloads over.
abbrev pub target_of : StoredSchedule → List String → Target
target_of o namespaces = record {
  core = o.schedule.core;
  schedule_name = o.schedule.name;
  namespaces = namespaces;
  transfer_ownership = false;
}

module _ (c : Cluster) (r : Resources c) (l : Lists c) (u : Util)
    (store : Store c.client.State StoredSchedule) where
  -- The object that `setErrorCondition` writes.
  abbrev failed_object : StoredSchedule → String → StoredSchedule
  failed_object o e = record o {
    status = record o.status { common = with_failure u o.generation e o.status.common };
  }

  abbrev pub give_up :
      StoredSchedule → String → PeriodCache → c.client.State → Reconciled c.client.State
  give_up o e cache s = fail u store (failed_object o e) e cache s

  -- `handleDeletion`. A discovery that fails leaves no namespace.
  unfoldable pub handle_deletion :
      StoredSchedule → PeriodCache → c.client.State → Reconciled c.client.State
  handle_deletion o cache s =
      let found : List String = elim (discover_namespaces l.select o.schedule.choice s) [
        | err e ↦ []
        | ok namespaces ↦ namespaces
      ] in
      elim (filter_namespaces_with_local_schedules l.local_schedules found s) [
        | err e ↦ answered (err e) cache s
        | ok namespaces ↦
            let (errors, s') =
              restore_managed_workloads c r l o.schedule.core o.schedule.name namespaces (l.now s)
                s in
            end_deletion u store o errors cache s'
      ]

  -- The end of `Reconcile`: the status, the gauge and the answer.
  unfoldable pub conclude :
      StoredSchedule
      → PeriodResult
      → List String
      → Cycle c.client.State
      → ℤ
      → PeriodCache
      → Reconciled c.client.State
  conclude o p namespaces y now cache =
      let t = check_termination c.list_pods now y.state namespaces (scales_up p) in
      let common =
        next_status u o.generation "Successfully reconciled schedule" p y t o.status.common in
      let o' = record o { status = record { common = common; namespaces = namespaces } } in
      after_status (answer_of o.schedule.core p y t now) (state_value y.warming p.state) cache
        (store.update_status o' y.state)

  -- A reconcile in a known period, with the namespaces it discovered.
  unfoldable pub reconcile_targets :
      StoredSchedule
      → PeriodResult
      → List String
      → ℤ
      → PeriodCache
      → c.client.State
      → Reconciled c.client.State
  reconcile_targets o p targets now cache s =
      let s1 = release_orphaned_namespaces c l r o.schedule.core o.schedule.name targets s in
      elim (filter_namespaces_with_local_schedules l.local_schedules targets s1) [
        | err e ↦ give_up o e cache s1
        | ok namespaces ↦ elim (run_cycle c r u (target_of o namespaces) p o.status.common now s1) [
          | pass_failed e s2 ↦ give_up o ("failed to scale workloads: " <> e) cache s2
          | cycled y ↦ conclude o p namespaces y now cache
        ]
      ]

  -- A reconcile of a schedule that is neither deleted nor suspended.
  unfoldable pub reconcile_active :
      Calendar → StoredSchedule → PeriodCache → c.client.State → Reconciled c.client.State
  reconcile_active k o cache s =
      let now = l.now s in
      let (found, cache') = period_of k o.schedule.core now cache in
      elim found [
        | err e ↦ give_up o e cache' s
        | ok p ↦ elim (discover_namespaces l.select o.schedule.choice s) [
          | err e ↦ give_up o e cache' s
          | ok targets ↦ reconcile_targets o p targets now cache' s
        ]
      ]

  -- `Reconcile` of the schedule of a name
  unfoldable pub reconcile :
      Calendar → String → PeriodCache → c.client.State → Reconciled c.client.State
  reconcile k name cache s = elim (store.fetch name s) [
    | not_found ↦ answered (ok (pos 0)) cache s
    | get_failed e ↦ answered (err e) cache s
    | fetched o ↦
        if not (u.contains_finalizer o.finalizers finalizer_name)
        then register u store o cache s
        else elim (o.deletion_timestamp) [
          | some t ↦ handle_deletion o cache s
          | none ↦
              if o.schedule.core.suspend
              then answered (ok (pos 0)) cache s
              else reconcile_active k o cache s
        ]
  ]
