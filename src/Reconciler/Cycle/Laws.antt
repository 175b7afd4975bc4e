-- ===== src/Reconciler/Cycle/Laws.antt =====
-- What the answer and the status of a reconcile say of its pass.
use lightsout.Base.{
  ◌+◌, ◌<◌, String, ◌≡◌, refl, sym, ap, ◌∙◌, ◌⊎◌, inl, inr, Bool, true, false, not, ◌&&◌, ◌||◌,
  some, List, arith, eqb, Result, ok, Result-cases, ok-injective,
}
use lightsout.Base.Int.{ℤ, leb_ℤ}
use lightsout.Constants.{warmup_check_interval}
use lightsout.Termination.{TerminationReport}
use lightsout.Kube.Cluster.{Cluster}
use lightsout.Workload.{Workload}
use lightsout.Collect.{collect_workloads}
use lightsout.Batcher.{
  Config, ScaleWorkloadsResult, Ended, done, cancelled, failed, scale_collected, scale_workloads,
}
use lightsout.Batcher.Stops.{pass_accounts, pass_total}
use lightsout.Period.{PeriodResult}
use lightsout.Requeue.Bounds.{requeue_bounds}
use lightsout.Requeue.{carried_wave_progress, warmup_may_start}
use lightsout.CustomResource.Access.{Resources}
use lightsout.Integrations.{integrations_up, integrations_warmup}
use lightsout.Status.{ScalingProgress, NamespaceScheduleStatus}
use lightsout.Reconciler.Server.{Util}
use lightsout.Reconciler.Cycle.{
  Target, scales_up, rate_limit_of, config_of, integrations_of, no_pass, Cycle, Cycled, cycled,
  integrations_before, pass_of, integrations_after, run_cycle, progress_of, state_value,
  next_status, answer_of,
}

module _ (c : Cluster) (cfg : Config) where
  -- A pass that ends without an error went over the workloads that it collected.
  scale_workloads-done :
      (s : c.client.State) (r : ScaleWorkloadsResult)
      → (scale_workloads c cfg s).0 ≡ done r
      → (ws : List Workload) × (s' : c.client.State) × ((scale_collected c cfg ws s').0 ≡ done r)
  unfolding scale_workloads
  scale_workloads-done s r h =
      let found =
        collect_workloads c cfg.filters cfg.schedule_name cfg.transfer_ownership cfg.namespaces s in
      elim (Result-cases found.0) [
        | inl (ws, e) ↦ (ws, found.1, rw (e, scale_workloads) at h)
        | inr (x, e) ↦ let h1 = rw (e, scale_workloads) at h in cc
      ]

cycled-injective : {S : Type 0} {y z : Cycle S} → ◌≡◌ {A = Cycled S} (cycled y) (cycled z) → y ≡ z
cycled-injective h = cc

-- The bound of the waiting time, where something warms up and nothing was visited.
no_limit :
    (warming : Bool) (result : ScaleWorkloadsResult) (soon : Bool)
    → warming ≡ true
    → result ≡ no_pass
    → (not (warming || result.wave_gate_reached) || result.batch_limit_reached || soon) ≡ true
    → soon ≡ true
no_limit true result soon w e h = sym (ap (λ x. x.batch_limit_reached || soon) e) ∙ h
no_limit false result soon w e h = cc

Ended-cases :
    (x : Ended)
    → ((r : ScaleWorkloadsResult) × (x ≡ done r))
      ⊎ ((r : ScaleWorkloadsResult) × (x ≡ cancelled r))
      ⊎ ((e : String) × (x ≡ failed e))
Ended-cases (done r) = inl (r, refl)
Ended-cases (cancelled r) = inr (inl (r, refl))
Ended-cases (failed e) = inr (inr (e, refl))

module _ (c : Cluster) (r : Resources c) (u : Util) (t : Target) where
  -- A result of a pass over workloads that were collected.
  abbrev IsCollected : Config → ScaleWorkloadsResult → Type 0
  IsCollected cfg result =
      (ws : List Workload) × (s : c.client.State) × ((scale_collected c cfg ws s).0 ≡ done result)

  -- The pass was deferred, or it went over the workloads that it collected.
  pass_of-ok :
      (deferred : Bool) (cfg : Config) (s : c.client.State) (result : ScaleWorkloadsResult)
      → (pass_of c r u t deferred cfg s).0 ≡ ok result
      → ((deferred ≡ true) × (result ≡ no_pass)) ⊎ IsCollected cfg result
  unfolding pass_of
  pass_of-ok true cfg s result h = inl (refl, cc)
  pass_of-ok false cfg s result h = elim (Ended-cases (scale_workloads c cfg s).0) [
    | inl (x, e) ↦
        inr
          (scale_workloads-done c cfg s result (e ∙ ap done (ok-injective (rw (e, pass_of) at h))))
    | inr (inl (x, e)) ↦ let h1 = rw (e, pass_of) at h in cc
    | inr (inr (x, e)) ↦ let h1 = rw (e, pass_of) at h in cc
  ]

  before_defers :
      (scale_up : Bool) (now : ℤ) (s : c.client.State)
      → (integrations_before c r u t scale_up now s).0 ≡ true
      → (scale_up ≡ true)
        × ((integrations_before c r u t scale_up now s).1
            ≡ (integrations_up c r (integrations_of t) now s).1)
  unfolding integrations_before
  before_defers true now s h = (refl, refl)
  before_defers false now s h = cc

  pass_deferred :
      (deferred : Bool) (cfg : Config) (s : c.client.State)
      → deferred ≡ true
      → pass_of c r u t deferred cfg s ≡ (ok no_pass, s)
  unfolding pass_of
  pass_deferred true cfg s h = refl
  pass_deferred false cfg s h = cc

  after_deferral :
      (scale_up deferred : Bool) (result : ScaleWorkloadsResult) (now : ℤ) (s : c.client.State)
      → deferred ≡ true
      → let y = integrations_after c r u t scale_up deferred result now s in
        (y.warming ≡ true) × (y.state ≡ s)
  unfolding integrations_after warmup_may_start
  after_deferral scale_up deferred result now s h = ground arith

  after_kept :
      (scale_up deferred : Bool) (result : ScaleWorkloadsResult) (now : ℤ) (s : c.client.State)
      → let y = integrations_after c r u t scale_up deferred result now s in
        (y.result ≡ result) × (y.deferred ≡ deferred)
  unfolding integrations_after
  after_kept scale_up deferred result now s = ground arith

  progress_left :
      (cfg : Config) (result : ScaleWorkloadsResult) (g : ScalingProgress)
      → IsCollected cfg result
      → progress_of result ≡ some g
      → g.completed + g.failed < g.total
  progress_left cfg result g (ws, s, e) h =
      let a = pass_accounts c cfg ws s result e in
      let total = pass_total c cfg ws s result e in ground (arith, a.0, a.1, total)

  -- The gauge of the state after the last integrations: 1 exactly on the way up, without a deferral
  -- and away from a wave boundary, if the pass stopped at its batch limit or nothing warms up.
  gauge_up :
      (deferred : Bool) (result : ScaleWorkloadsResult) (p : PeriodResult) (now : ℤ)
      (s : c.client.State)
      → eqb
          (state_value
            (integrations_after c r u t (scales_up p) deferred result now s).warming
            p.state)
          1
        ≡ (scales_up p
            && not deferred
            && not result.wave_gate_reached
            && (result.batch_limit_reached
                || not (integrations_warmup c r (integrations_of t) now s).0))
  unfolding integrations_after state_value warmup_may_start
  gauge_up deferred result p now s = ground arith

  module _ (p : PeriodResult) (before : NamespaceScheduleStatus) (now : ℤ)
      (s : c.client.State) where
    abbrev first_part : Bool × c.client.State
    first_part = integrations_before c r u t (scales_up p) now s

    abbrev pass_config : Config
    pass_config =
        config_of t (scales_up p) (carried_wave_progress before.state before.wave_progress p) now

    abbrev pass_part : Result ScaleWorkloadsResult × c.client.State
    pass_part = pass_of c r u t first_part.0 pass_config first_part.1

    -- A cycle without an error is its three parts.
    cycled_lem :
        (y : Cycle c.client.State)
        → run_cycle c r u t p before now s ≡ cycled y
        → (result : ScaleWorkloadsResult) × (pass_part.0 ≡ ok result)
          × (y ≡ integrations_after c r u t (scales_up p) first_part.0 result now pass_part.1)
    unfolding run_cycle
    cycled_lem y h = elim (Result-cases pass_part.0) [
      | inl (result, e) ↦ (result, e, cycled-injective (sym h ∙ rw (e, run_cycle) refl))
      | inr (x, e) ↦ let h1 = rw (e, run_cycle) at h in cc
    ]

    -- The progress that a status shows has workloads left: fewer are completed and failed than were
    -- collected.
    pub progress_unfinished :
        (y : Cycle c.client.State) (g : ScalingProgress)
        → run_cycle c r u t p before now s ≡ cycled y
        → progress_of y.result ≡ some g
        → g.completed + g.failed < g.total
    progress_unfinished y g h k =
        let (result, e, same) = cycled_lem y h in
        let kept = after_kept (scales_up p) first_part.0 result now pass_part.1 in
        let at : y.result ≡ result = ap (λ x. x.result) same ∙ kept.0 in
        elim (pass_of-ok first_part.0 pass_config first_part.1 result e) [
          | inl (_, none') ↦
              let k' : progress_of no_pass ≡ some g = sym (ap progress_of (at ∙ none')) ∙ k in cc
          | inr ran ↦ progress_left pass_config result g ran (sym (ap progress_of at) ∙ k)
        ]

    -- While custom resources defer the scale-up, the pass visits nothing: the cluster is as the
    -- integrations left it, the counts of the status stay, the gauge says that the schedule warms
    -- up, and the next reconcile comes within thirty seconds.
    pub deferral_waits :
        (y : Cycle c.client.State) (termination : TerminationReport) (generation : ℤ)
        (message : String)
        → run_cycle c r u t p before now s ≡ cycled y
        → y.deferred ≡ true
        → (scales_up p ≡ true)
          × (y.state ≡ (integrations_up c r (integrations_of t) now s).1)
          × ((next_status u generation message p y termination before).workload_stats
              ≡ before.workload_stats)
          × (state_value y.warming p.state ≡ 2)
          × (leb_ℤ (answer_of t.core p y termination now) warmup_check_interval ≡ true)
    unfolding next_status state_value answer_of
    deferral_waits y termination generation message h d =
        let (result, e, same) = cycled_lem y h in
        let kept = after_kept (scales_up p) first_part.0 result now pass_part.1 in
        let held : first_part.0 ≡ true = sym (ap (λ x. x.deferred) same ∙ kept.1) ∙ d in
        let (up, left) = before_defers (scales_up p) now s held in
        let none' = pass_deferred first_part.0 pass_config first_part.1 held in
        let at : y.result ≡ no_pass =
          ap (λ x. x.result) same ∙ kept.0 ∙ ok-injective (sym e ∙ ap (λ x. x.0) none') in
        let (warm, still) = after_deferral (scales_up p) first_part.0 result now pass_part.1 held in
        let warms : y.warming ≡ true = ap (λ x. x.warming) same ∙ warm in
        let soon =
          (requeue_bounds p (scales_up p) y.result (rate_limit_of t.core (scales_up p)) y.warming
            termination now).3 in
        (
          up,
          ap (λ x. x.state) same ∙ still ∙ ap (λ x. x.1) none' ∙ left,
          rw d refl,
          rw warms refl,
          no_limit y.warming y.result _ warms at soon,
        )
