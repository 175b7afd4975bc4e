-- ===== src/Reconciler/Reports.antt =====
-- What a reconcile of an active schedule leaves in the status, on every outcome: the ends of
-- `Reconcile` in internal/controller/lightsoutschedule_controller.go and
-- lightsoutnamespaceschedule_controller.go.
use lightsout.Base.{
  ℕ, String, ◌≡◌, refl, ◌⊎◌, inl, inr, Option, none, some, List, ◌<>◌, Result, ok, err,
  Result-cases,
}
use lightsout.Base.Int.{ℤ}
use lightsout.Kube.Cluster.{Cluster}
use lightsout.Namespaces.{discover_namespaces, filter_namespaces_with_local_schedules}
use lightsout.Period.{Calendar, PeriodCache, PeriodResult}
use lightsout.Termination.{TerminationReport, check_termination}
use lightsout.CustomResource.Access.{Resources}
use lightsout.Status.{Condition, NamespaceScheduleStatus, ScheduleStatus}
use lightsout.Reconciler.Server.{Store, Lists, Util}
use lightsout.Reconciler.Orphans.{release_orphaned_namespaces}
use lightsout.Reconciler.Cycle.{
  scales_up, Cycle, Cycled, cycled, pass_failed, run_cycle, next_status, answer_of,
}
use lightsout.Reconciler.Steps.{Reconciled, after_status, with_failure, period_of}
use lightsout.Reconciler.Global
use lightsout.Reconciler.Global.{StoredSchedule}

-- The answer after a write of the status: the wait, or the error of the write.
abbrev pub written : ℤ → Option String → Result ℤ
written d none = ok d
written d (some e) = err e

after_status_lem :
    {S : Type 0} (wait : ℤ) (gauge : ℕ) (cache : PeriodCache) (x : Option String × S)
    → ((after_status wait gauge cache x).state ≡ x.1)
      × ((after_status wait gauge cache x).answer ≡ written wait x.0)
after_status_lem wait gauge cache (none, s) = (refl, refl)
after_status_lem wait gauge cache (some e, s) = (refl, refl)

-- The Ready condition of a generation, with a verdict.
abbrev pub ready : ℤ → (status reason message : String) → Condition
ready generation status reason message = record {
  type = "Ready";
  status = status;
  reason = reason;
  message = message;
  observed_generation = generation;
}

-- The status of a reconcile that went through: ready, for this generation, and in the state of the
-- period.
abbrev pub IsReady :
    Util → ℤ → String → PeriodResult → (before after : NamespaceScheduleStatus) → Type 0
IsReady u generation message p before after =
    (after.state ≡ p.state)
    × (after.observed_generation ≡ generation)
    × (after.conditions
        ≡ u.set_status_condition (ready generation "True" "ReconcileSucceeded" message)
            before.conditions)

-- The status of a reconcile that failed: what it was, but for a Ready condition that is false and
-- tells the error.
abbrev pub IsFailed : Util → ℤ → String → (before after : NamespaceScheduleStatus) → Type 0
IsFailed u generation e before after = after ≡ record before {
  conditions =
      u.set_status_condition (ready generation "False" "ReconcileFailed" e) before.conditions;
}

next_status-IsReady :
    {S : Type 0} (u : Util) (generation : ℤ) (message : String) (p : PeriodResult) (y : Cycle S)
    (t : TerminationReport) (before : NamespaceScheduleStatus)
    → IsReady u generation message p before (next_status u generation message p y t before)
unfolding next_status
next_status-IsReady u generation message p y t before = (refl, refl, refl)

module _ {S : Type 0} (u : Util) (store : Store S StoredSchedule) (o : StoredSchedule) where
  -- The error is the answer, and a status that failed with it was written last.
  abbrev pub ReportsFailure : Reconciled S → Type 0
  ReportsFailure x =
      (e : String) × (after : ScheduleStatus) × (s : S) × (x.answer ≡ err e)
      × IsFailed u o.generation e o.status.common after.common
      × (after.namespaces ≡ o.status.namespaces)
      × (x.state ≡ (store.update_status (record o { status = after }) s).1)

  -- A ready status was written last, and the answer is a wait or the error of that write.
  abbrev pub ReportsSuccess : PeriodResult → Reconciled S → Type 0
  ReportsSuccess p x =
      (d : ℤ) × (after : ScheduleStatus) × (s : S) × IsReady u o.generation
        "Successfully reconciled schedule" p o.status.common after.common
      × (x.state ≡ (store.update_status (record o { status = after }) s).1)
      × (x.answer ≡ written d (store.update_status (record o { status = after }) s).0)

  abbrev pub IsReported : Result PeriodResult → Reconciled S → Type 0
  IsReported found x = ReportsFailure x ⊎ ((p : PeriodResult) × (found ≡ ok p) × ReportsSuccess p x)

module _ (c : Cluster) (r : Resources c) (l : Lists c) (u : Util)
    (store : Store c.client.State StoredSchedule) (o : StoredSchedule) where
  give_up-ReportsFailure :
      (e : String) (cache : PeriodCache) (s : c.client.State)
      → ReportsFailure u store o (Global.give_up c r l u store o e cache s)
  give_up-ReportsFailure e cache s =
      let after : ScheduleStatus = record o.status {
        common = with_failure u o.generation e o.status.common;
      } in
      (e, after, s, refl, refl, refl, refl)

  conclude-ReportsSuccess :
      (cache : PeriodCache) (p : PeriodResult) (namespaces : List String) (y : Cycle c.client.State)
      (now : ℤ)
      → ReportsSuccess u store o p (Global.conclude c r l u store o p namespaces y now cache)
  unfolding Global.conclude
  conclude-ReportsSuccess cache p namespaces y now =
      let t = check_termination c.list_pods now y.state namespaces (scales_up p) in
      let message : String = "Successfully reconciled schedule" in
      let common = next_status u o.generation message p y t o.status.common in
      let after : ScheduleStatus = record { common = common; namespaces = namespaces } in
      let d = answer_of o.schedule.core p y t now in
      let ended =
        after_status_lem d _ cache (store.update_status (record o { status = after }) y.state) in
      (
        d,
        after,
        y.state,
        next_status-IsReady u o.generation message p y t o.status.common,
        ended.0,
        ended.1,
      )

  -- The end of a reconcile, from the answer of the pass.
  cycle-IsReported :
      (cache : PeriodCache) (p : PeriodResult) (namespaces : List String) (now : ℤ)
      (x : Cycled c.client.State)
      → IsReported u store o (ok p) (elim x [
        | pass_failed e s2 ↦
            Global.give_up c r l u store o ("failed to scale workloads: " <> e) cache s2
        | cycled y ↦ Global.conclude c r l u store o p namespaces y now cache
      ])
  cycle-IsReported cache p namespaces now (cycled y) =
      inr (p, refl, conclude-ReportsSuccess cache p namespaces y now)
  cycle-IsReported cache p namespaces now (pass_failed e s2) =
      inl (give_up-ReportsFailure ("failed to scale workloads: " <> e) cache s2)

  targets-IsReported :
      (cache : PeriodCache) (p : PeriodResult) (targets : List String) (now : ℤ)
      (s : c.client.State)
      → IsReported u store o (ok p) (Global.reconcile_targets c r l u store o p targets now cache s)
  unfolding Global.reconcile_targets
  targets-IsReported cache p targets now s =
      let s1 = release_orphaned_namespaces c l r o.schedule.core o.schedule.name targets s in
      elim (Result-cases (filter_namespaces_with_local_schedules l.local_schedules targets s1)) [
        | inr (e, h) ↦ rw (h, Global.reconcile_targets) (inl (give_up-ReportsFailure e cache s1))
        | inl (kept, h) ↦
            rw (h, Global.reconcile_targets)
              (cycle-IsReported cache p kept now
                (run_cycle c r u (Global.target_of o kept) p o.status.common now s1))
      ]

  -- Every reconcile of an active global schedule ends by writing the status. Either the answer is an
  -- error and the write put it into the Ready condition as a failure, or the period was found and
  -- the write set the Ready condition, the generation and the state of that period; then the answer
  -- is a wait, unless that write failed, whose error it is.
  pub reconcile-IsReported :
      (k : Calendar) (cache : PeriodCache) (s : c.client.State)
      → IsReported u store o
          (period_of k o.schedule.core (l.now s) cache).0
          (Global.reconcile_active c r l u store k o cache s)
  unfolding Global.reconcile_active
  reconcile-IsReported k cache s =
      let found = period_of k o.schedule.core (l.now s) cache in
      elim (Result-cases found.0) [
        | inr (e, h) ↦ rw (h, Global.reconcile_active) (inl (give_up-ReportsFailure e found.1 s))
        | inl (p, h) ↦ elim (Result-cases (discover_namespaces l.select o.schedule.choice s)) [
          | inr (e, h2) ↦
              rw (h, h2, Global.reconcile_active) (inl (give_up-ReportsFailure e found.1 s))
          | inl (targets, h2) ↦
              rw (h, h2, Global.reconcile_active) (targets-IsReported found.1 p targets (l.now s) s)
        ]
      ]
