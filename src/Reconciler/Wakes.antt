-- ===== src/Reconciler/Wakes.antt =====
-- When a reconcile of either kind comes again, and what it reports: `Reconcile` between the period
-- and the answer.
use lightsout.Base.{
  ℕ, String, ◌≡◌, refl, ◌⊎◌, inl, inr, Option, none, some, List, [], ◌∷◌, ok, Result-cases,
  ok-injective, ◌==◌, if◌then◌else◌, arith,
}
use lightsout.Base.Int.{ℤ, pos, max_ℤ, ◌≤ℤ◌, ◌-ℤ◌}
use lightsout.Constants.{second, minute}
use lightsout.Api.{ScheduleCore}
use lightsout.Kube.Cluster.{Cluster}
use lightsout.Namespaces.{discover_namespaces, filter_namespaces_with_local_schedules}
use lightsout.Period.{Calendar, PeriodCache, PeriodResult}
use lightsout.Termination.{TerminationReport, check_termination}
use lightsout.Requeue.{time_until_next}
use lightsout.Requeue.Bounds.{requeue_bounds}
use lightsout.CustomResource.Access.{Resources}
use lightsout.Reconciler.Server.{Store, Lists, Util}
use lightsout.Reconciler.Orphans.{release_orphaned_namespaces}
use lightsout.Reconciler.Cycle.{
  scales_up, rate_limit_of, Cycle, Cycled, cycled, pass_failed, run_cycle, answer_of,
}
use lightsout.Reconciler.Steps.{after_status, period_of}
use lightsout.Reconciler.Global
use lightsout.Reconciler.Global.{StoredSchedule}
use lightsout.Reconciler.Namespaced
use lightsout.Reconciler.Namespaced.{StoredNamespaceSchedule}

-- The transition out of a period: the next downscale of one that is up, the next upscale of any
-- other.
abbrev pub next_transition : PeriodResult → ℤ
next_transition p = if p.state == "Up" then p.next_downscale else p.next_upscale

-- A wait of a second at least, and until the transition out of the period, or a minute where that is
-- nearer, at most.
abbrev pub IsTimely : PeriodResult → ℤ → ℤ → Type 0
IsTimely p now d = (pos second ≤ℤ d) × (d ≤ℤ max_ℤ (next_transition p -ℤ now) (pos minute))

transition_time :
    (p : PeriodResult) (now : ℤ) → time_until_next p (scales_up p) now ≡ next_transition p -ℤ now
transition_time p now = ground arith

answer-IsTimely :
    {S : Type 0} (core : ScheduleCore) (p : PeriodResult) (y : Cycle S) (t : TerminationReport)
    (now : ℤ)
    → IsTimely p now (answer_of core p y t now)
unfolding answer_of
answer-IsTimely core p y t now =
    let b =
      requeue_bounds p (scales_up p) y.result (rate_limit_of core (scales_up p)) y.warming t now in
    (b.0, rw (transition_time p now) at b.1)

pub Cycled-cases :
    {S : Type 0} (x : Cycled S)
    → ((y : Cycle S) × (x ≡ cycled y)) ⊎ ((e : String) × (s : S) × (x ≡ pass_failed e s))
Cycled-cases (cycled y) = inl (y, refl)
Cycled-cases (pass_failed e s) = inr (e, s, refl)

after_status-ok :
    {S : Type 0} (wait : ℤ) (gauge : ℕ) (cache : PeriodCache) (x : Option String × S) {d : ℤ}
    → (after_status wait gauge cache x).answer ≡ ok d
    → wait ≡ d
after_status-ok wait gauge cache (none, s) h = ok-injective h
after_status-ok wait gauge cache (some e, s) h = cc

module _ (c : Cluster) (r : Resources c) (l : Lists c) (u : Util) where
  module _ (store : Store c.client.State StoredSchedule) (o : StoredSchedule) where
    conclude-IsTimely :
        (cache : PeriodCache) (p : PeriodResult) (namespaces : List String)
        (y : Cycle c.client.State) (now d : ℤ)
        → (Global.conclude c r l u store o p namespaces y now cache).answer ≡ ok d
        → IsTimely p now d
    unfolding Global.conclude
    conclude-IsTimely cache p namespaces y now d h =
        let t = check_termination c.list_pods now y.state namespaces (scales_up p) in
        rw (← after_status-ok _ _ cache _ h) (answer-IsTimely o.schedule.core p y t now)

    targets-IsTimely :
        (cache : PeriodCache) (p : PeriodResult) (targets : List String) (now d : ℤ)
        (s : c.client.State)
        → (Global.reconcile_targets c r l u store o p targets now cache s).answer ≡ ok d
        → IsTimely p now d
    unfolding Global.reconcile_targets
    targets-IsTimely cache p targets now d s h =
        let s1 = release_orphaned_namespaces c l r o.schedule.core o.schedule.name targets s in
        elim (Result-cases (filter_namespaces_with_local_schedules l.local_schedules targets s1)) [
          | inr (x, e) ↦ let h1 = rw (e, Global.reconcile_targets) at h in cc
          | inl (kept, e) ↦
              let h1 = rw (e, Global.reconcile_targets) at h in
              elim (Cycled-cases
                (run_cycle c r u (Global.target_of o kept) p o.status.common now s1)) [
                  | inl (y, e2) ↦
                      conclude-IsTimely cache p kept y now d
                        (rw (e2, Global.reconcile_targets) at h1)
                  | inr (x, s2, e2) ↦ let h2 = rw (e2, Global.reconcile_targets) at h1 in cc
                ]
        ]

    -- A reconcile of an active global schedule that succeeds found its period, and asks to be called
    -- again in time: after a second at least, and no later than at the transition out of that period
    -- (the next downscale while it is up, else the next upscale), or after a minute where that is
    -- nearer.
    pub reconcile-IsTimely :
        (k : Calendar) (cache : PeriodCache) (s : c.client.State) (d : ℤ)
        → (Global.reconcile_active c r l u store k o cache s).answer ≡ ok d
        → (p : PeriodResult) × ((period_of k o.schedule.core (l.now s) cache).0 ≡ ok p)
          × IsTimely p (l.now s) d
    unfolding Global.reconcile_active
    reconcile-IsTimely k cache s d h =
        let found = period_of k o.schedule.core (l.now s) cache in
        elim (Result-cases found.0) [
          | inr (x, e) ↦ let h1 = rw (e, Global.reconcile_active) at h in cc
          | inl (p, e) ↦
              let h1 = rw (e, Global.reconcile_active) at h in
              elim (Result-cases (discover_namespaces l.select o.schedule.choice s)) [
                | inr (x, e2) ↦ let h2 = rw (e2, Global.reconcile_active) at h1 in cc
                | inl (targets, e2) ↦ (
                  p,
                  e,
                  targets-IsTimely found.1 p targets (l.now s) d s
                      (rw (e2, Global.reconcile_active) at h1),
                )
              ]
        ]

  module _ (store : Store c.client.State StoredNamespaceSchedule)
      (o : StoredNamespaceSchedule) where
    local_conclude-IsTimely :
        (cache : PeriodCache) (p : PeriodResult) (y : Cycle c.client.State) (now d : ℤ)
        → (Namespaced.conclude c r l u store o p y now cache).answer ≡ ok d
        → IsTimely p now d
    unfolding Namespaced.conclude
    local_conclude-IsTimely cache p y now d h =
        let t =
          check_termination c.list_pods now y.state (o.schedule.namespace ∷ []) (scales_up p) in
        rw (← after_status-ok _ _ cache _ h) (answer-IsTimely o.schedule.core p y t now)

    -- The same of a namespace schedule.
    pub local_reconcile-IsTimely :
        (k : Calendar) (cache : PeriodCache) (s : c.client.State) (d : ℤ)
        → (Namespaced.reconcile_active c r l u store k o cache s).answer ≡ ok d
        → (p : PeriodResult) × ((period_of k o.schedule.core (l.now s) cache).0 ≡ ok p)
          × IsTimely p (l.now s) d
    unfolding Namespaced.reconcile_active
    local_reconcile-IsTimely k cache s d h =
        let found = period_of k o.schedule.core (l.now s) cache in
        elim (Result-cases found.0) [
          | inr (x, e) ↦ let h1 = rw (e, Namespaced.reconcile_active) at h in cc
          | inl (p, e) ↦
              let h1 = rw (e, Namespaced.reconcile_active) at h in
              elim (Cycled-cases
                (run_cycle c r u (Namespaced.target_of o) p o.status (l.now s) s)) [
                  | inl (y, e2) ↦ (
                    p,
                    e,
                    local_conclude-IsTimely found.1 p y (l.now s) d
                        (rw (e2, Namespaced.reconcile_active) at h1),
                  )
                  | inr (x, s2, e2) ↦ let h2 = rw (e2, Namespaced.reconcile_active) at h1 in cc
                ]
        ]
