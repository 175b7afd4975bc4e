-- ===== src/Reconciler/Deletion.antt =====
-- `handleDeletion` of both reconcilers: what is restored before the finalizer goes.
use lightsout.Base.{
  String, ◌≡◌, refl, ◌∙◌, ap, inl, inr, true, Result, List, [], ◌∷◌, arith, contains, ok, err,
  Result-cases,
}
use lightsout.Base.Int.{ℤ, pos}
use lightsout.Api.{ScheduleCore}
use lightsout.Constants.{finalizer_name}
use lightsout.Kube.Client.{IsMergePatch}
use lightsout.Kube.Cluster.{Cluster}
use lightsout.Namespaces.{discover_namespaces, filter_namespaces_with_local_schedules}
use lightsout.Namespaces.Laws.{kept_namespaces}
use lightsout.Period.{PeriodCache}
use lightsout.CustomResource.Access.{Resources}
use lightsout.Status.{Stored}
use lightsout.Reconciler.Server.{Store, Lists, Util}
use lightsout.Reconciler.Restore.{restore_managed_workloads}
use lightsout.Reconciler.Restore.Clean.{RestoredEach, integrations_restored, restore-RestoredEach}
use lightsout.Reconciler.Restore.Nothing.{restore-nil}
use lightsout.Reconciler.Steps.{after_update, end_deletion}
use lightsout.Reconciler.Global
use lightsout.Reconciler.Global.{StoredSchedule}
use lightsout.Reconciler.Namespaced
use lightsout.Reconciler.Namespaced.{StoredNamespaceSchedule}

after_update-state :
    {S Obj : Type 0} (wait : ℤ) (cache : PeriodCache) (x : Result Obj × S)
    → (after_update wait cache x).state ≡ x.1
after_update-state wait cache (ok o, s) = refl
after_update-state wait cache (err e, s) = refl

-- The object without the finalizer.
abbrev pub let_go : {Sched Status : Type 0} → Util → Stored Sched Status → Stored Sched Status
let_go u o = record o { finalizers = u.remove_finalizer finalizer_name o.finalizers }

-- A deletion that neither fails nor retries saw no error, and stored the object without its
-- finalizer.
end_deletion_lem :
    {S Sched Status : Type 0} (u : Util) (store : Store S (Stored Sched Status))
    (o : Stored Sched Status) (errors : List String) (cache : PeriodCache) (s : S)
    → (end_deletion u store o errors cache s).answer ≡ ok (pos 0)
    → (errors ≡ [])
      × ((end_deletion u store o errors cache s).state ≡ (store.update (let_go u o) s).1)
unfolding end_deletion
end_deletion_lem u store o [] cache s h =
    (refl, after_update-state (pos 0) cache (store.update (let_go u o) s))
end_deletion_lem u store o (e ∷ es) cache s h = absurd (ground arith)

module _ (c : Cluster) (r : Resources c) (l : Lists c) (u : Util) where
  -- A deletion from one state to another: first every namespace is restored, then the integrations,
  -- and in the state that this leaves the object is stored without its finalizer.
  abbrev pub IsDeleted :
      {Sched Status : Type 0}
      → Store c.client.State (Stored Sched Status)
      → Stored Sched Status
      → ScheduleCore
      → (schedule_name : String) (namespaces : List String) (from to : c.client.State) → Type 0
  IsDeleted store o core schedule_name namespaces from to =
      (mid : c.client.State) × RestoredEach c r l core schedule_name namespaces from mid
      × (to
          ≡ (store.update (let_go u o)
              (integrations_restored c r l core schedule_name namespaces (l.now from) mid)).1)

  -- The end of a deletion, over the restore of its namespaces.
  end-IsDeleted :
      {Sched Status : Type 0} (store : Store c.client.State (Stored Sched Status))
      (o : Stored Sched Status) (core : ScheduleCore) (schedule_name : String)
      (namespaces : List String) (law : IsMergePatch c.client) (cache : PeriodCache)
      (s : c.client.State)
      → let x = restore_managed_workloads c r l core schedule_name namespaces (l.now s) s in
        let y = end_deletion u store o x.0 cache x.1 in
        y.answer ≡ ok (pos 0) → IsDeleted store o core schedule_name namespaces s y.state
  end-IsDeleted store o core schedule_name namespaces law cache s h =
      let x = restore_managed_workloads c r l core schedule_name namespaces (l.now s) s in
      let (clean, stored) = end_deletion_lem u store o x.0 cache x.1 h in
      let (mid, each, after) =
        restore-RestoredEach c r l core schedule_name law namespaces (l.now s) s clean in
      (mid, each, stored ∙ ap (λ s'. (store.update (let_go u o) s').1) after)

  module _ (store : Store c.client.State StoredSchedule) where
    -- A deletion of a global schedule that neither fails nor retries went through the namespaces
    -- that the schedule discovers and that hold no schedule of their own, this one among them. In
    -- each of them, one after the other, it listed the workloads of the schedule and got every one
    -- of them back: each call starts in the state that the one before left, and from the state after
    -- the last one the integrations are restored and the finalizer is removed.
    pub deletion_restores :
        (law : IsMergePatch c.client) (o : StoredSchedule) (cache : PeriodCache)
        (s : c.client.State) (found : List String) (ns : String)
        → discover_namespaces l.select o.schedule.choice s ≡ ok found
        → contains found ns ≡ true
        → l.local_schedules ns s ≡ ok 0
        → (Global.handle_deletion c r l u store o cache s).answer ≡ ok (pos 0)
        → (kept : List String) × (filter_namespaces_with_local_schedules l.local_schedules found s
            ≡ ok kept)
          × (contains kept ns ≡ true)
          × IsDeleted store o o.schedule.core o.schedule.name kept s
              (Global.handle_deletion c r l u store o cache s).state
    unfolding Global.handle_deletion
    deletion_restores law o cache s found ns e m free h =
        elim (Result-cases (filter_namespaces_with_local_schedules l.local_schedules found s)) [
          | inr (x, f) ↦
              let h1 = rw (e, Global.handle_deletion) at h in
              let h2 = rw (f, Global.handle_deletion) at h1 in cc
          | inl (kept, f) ↦ (
            kept,
            f,
            kept_namespaces l.local_schedules found s kept ns f ∙ rw (m, free) refl,
            rw (e, f, Global.handle_deletion)
                (end-IsDeleted store o o.schedule.core o.schedule.name kept law cache s
                  (rw (f, Global.handle_deletion) at (rw (e, Global.handle_deletion) at h))),
          )
        ]

    -- Where the discovery of the namespaces fails, a deletion removes the finalizer at once: it asks
    -- the server for nothing else, and restores nothing.
    blind_deletion :
        (o : StoredSchedule) (cache : PeriodCache) (s : c.client.State) (e : String)
        → discover_namespaces l.select o.schedule.choice s ≡ err e
        → Global.handle_deletion c r l u store o cache s
          ≡ after_update (pos 0) cache (
              store.update
                (record o { finalizers = u.remove_finalizer finalizer_name o.finalizers })
                s)
    unfolding Global.handle_deletion filter_namespaces_with_local_schedules end_deletion
    blind_deletion o cache s e h =
        rw (h, Global.handle_deletion)
          (rw (restore-nil c r l o.schedule.core o.schedule.name s (l.now s)) refl)

  module _ (store : Store c.client.State StoredNamespaceSchedule) where
    -- A deletion of a namespace schedule that neither fails nor retries went through its namespace
    -- in the same way.
    pub namespace_deletion_restores :
        (law : IsMergePatch c.client) (o : StoredNamespaceSchedule) (cache : PeriodCache)
        (s : c.client.State)
        → (Namespaced.handle_deletion c r l u store o cache s).answer ≡ ok (pos 0)
        → IsDeleted store o o.schedule.core o.schedule.name
            (o.schedule.namespace ∷ [])
            s
            (Namespaced.handle_deletion c r l u store o cache s).state
    unfolding Namespaced.handle_deletion
    namespace_deletion_restores law o cache s h =
        end-IsDeleted store o o.schedule.core o.schedule.name (o.schedule.namespace ∷ []) law cache
          s h
