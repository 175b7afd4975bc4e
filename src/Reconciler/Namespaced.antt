-- ===== src/Reconciler/Namespaced.antt =====
-- `LightsOutNamespaceScheduleReconciler` of
-- internal/controller/lightsoutnamespaceschedule_controller.go: the schedule of one namespace.
use lightsout.Base.{String, true, not, none, some, [], ◌∷◌}
use lightsout.Base.{ok, err, if◌then◌else◌}
use lightsout.Base.Int.{ℤ, pos}
use lightsout.Constants.{finalizer_name}
use lightsout.Api.{NamespaceSchedule}
use lightsout.Kube.Cluster.{Cluster}
use lightsout.Period.{Calendar, PeriodCache, PeriodResult}
use lightsout.Termination.{check_termination}
use lightsout.CustomResource.Access.{Resources}
use lightsout.Status.{NamespaceScheduleStatus, Stored}
use lightsout.Reconciler.Server.{Store, Lists, Util, fetched, not_found, get_failed}
use lightsout.Reconciler.Restore.{restore_managed_workloads}
use lightsout.Reconciler.Cycle.{
  Target, scales_up, Cycle, cycled, pass_failed, run_cycle, next_status, state_value, answer_of,
}
use lightsout.Reconciler.Steps.{
  Reconciled, answered, after_status, period_of, register, end_deletion, with_failure, fail,
}

abbrev pub StoredNamespaceSchedule : Type 0
StoredNamespaceSchedule = Stored NamespaceSchedule NamespaceScheduleStatus

-- Its own namespace alone, whose workloads it takes over.
abbrev pub target_of : StoredNamespaceSchedule → Target
target_of o = record {
  core = o.schedule.core;
  schedule_name = o.schedule.name;
  namespaces = o.schedule.namespace ∷ [];
  transfer_ownership = true;
}

module _ (c : Cluster) (r : Resources c) (l : Lists c) (u : Util)
    (store : Store c.client.State StoredNamespaceSchedule) where
  -- `setErrorCondition`, and the error.
  abbrev pub give_up :
      StoredNamespaceSchedule → String → PeriodCache → c.client.State → Reconciled c.client.State
  give_up o e cache s =
      fail u store (record o { status = with_failure u o.generation e o.status }) e cache s

  -- `handleDeletion`
  unfoldable pub handle_deletion :
      StoredNamespaceSchedule → PeriodCache → c.client.State → Reconciled c.client.State
  handle_deletion o cache s =
      let (errors, s') =
        restore_managed_workloads c r l o.schedule.core o.schedule.name (o.schedule.namespace ∷ [])
          (l.now s) s in
      end_deletion u store o errors cache s'

  -- The end of `Reconcile`: the status, the gauge and the answer.
  unfoldable pub conclude :
      StoredNamespaceSchedule
      → PeriodResult
      → Cycle c.client.State
      → ℤ
      → PeriodCache
      → Reconciled c.client.State
  conclude o p y now cache =
      let t = check_termination c.list_pods now y.state (o.schedule.namespace ∷ []) (scales_up p) in
      let status =
        next_status u o.generation "Successfully reconciled namespace schedule" p y t o.status in
      after_status (answer_of o.schedule.core p y t now) (state_value y.warming p.state) cache
        (store.update_status (record o { status = status }) y.state)

  -- A reconcile of a schedule that is neither deleted nor suspended.
  unfoldable pub reconcile_active :
      Calendar → StoredNamespaceSchedule → PeriodCache → c.client.State → Reconciled c.client.State
  reconcile_active k o cache s =
      let now = l.now s in
      let (found, cache') = period_of k o.schedule.core now cache in
      elim found [
        | err e ↦ give_up o e cache' s
        | ok p ↦ elim (run_cycle c r u (target_of o) p o.status now s) [
          | pass_failed e s' ↦ give_up o e cache' s'
          | cycled y ↦ conclude o p y now cache'
        ]
      ]

  -- `Reconcile` of the schedule of a name
  unfoldable pub reconcile :
      Calendar → String → PeriodCache → c.client.State → Reconciled c.client.State
  reconcile k name cache s = elim (store.fetch name s) [
    | not_found ↦ answered (ok (pos 0)) cache s
    | get_failed e ↦ answered (err e) cache s
    | fetched o ↦
        if not (u.contains_finalizer o.finalizers finalizer_name)
        then register u store o cache s
        else elim (o.deletion_timestamp) [
          | some t ↦ handle_deletion o cache s
          | none ↦
              if o.schedule.core.suspend
              then answered (ok (pos 0)) cache s
              else reconcile_active k o cache s
        ]
  ]
