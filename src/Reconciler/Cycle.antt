-- ===== src/Reconciler/Cycle.antt =====
-- What the two reconcilers do in the same words: internal/controller/lightsoutschedule_controller.go
-- and lightsoutnamespaceschedule_controller.go between the choice of the namespaces and the answer.
pub mod Laws
use lightsout.Base.{ℕ, ◌+◌, String, ◌<>◌, Bool, true, false, ◌&&◌, ◌||◌, Option, none, some, List}
use lightsout.Base.{[], ◌∷◌, Result, ok, err, ◌==◌, if◌then◌else◌}
use lightsout.Base.Int.{ℤ}
use lightsout.Constants.{condition_type_ready}
use lightsout.Api.{RateLimitConfig, ScheduleCore}
use lightsout.Kube.Cluster.{Cluster}
use lightsout.Workload.{no_stats}
use lightsout.SyncWave.{WaveProgress}
use lightsout.Collect.{Filters}
use lightsout.Batcher.{
  Config, ScaleWorkloadsResult, stopped_early, Ended, done, cancelled, failed, scale_workloads,
}
use lightsout.Period.{PeriodResult}
use lightsout.Termination.{TerminationReport}
use lightsout.Requeue.{carried_wave_progress, warmup_may_start, requeue_after}
use lightsout.CustomResource.Access.{Resources}
use lightsout.Integrations.{
  IntegrationConfig, integrations_down, integrations_up, integrations_warmup,
}
use lightsout.Status.{Condition, ScalingProgress, NamespaceScheduleStatus}
use lightsout.Reconciler.Server.{Util}

-- What one reconcile works on: a schedule, its namespaces, and whether it takes workloads over from
-- another schedule.
pub record Target : Type 0 where
  pub core : ScheduleCore
  pub schedule_name : String
  pub namespaces : List String
  pub transfer_ownership : Bool

abbrev pub scales_up : PeriodResult → Bool
scales_up p = p.state == "Up"

abbrev pub rate_limit_of : ScheduleCore → Bool → Option RateLimitConfig
rate_limit_of core scale_up =
    if scale_up then core.upscale_rate_limit else core.downscale_rate_limit

abbrev pub filters_of : ScheduleCore → Filters
filters_of core = record {
  workload_types = core.workload_types;
  exclude_labels = core.exclude_labels;
  include_owned_workloads = core.include_owned_workloads;
}

-- The configuration of the pass.
abbrev pub config_of : Target → Bool → Option WaveProgress → ℤ → Config
config_of t scale_up progress now = record {
  schedule_name = t.schedule_name;
  namespaces = t.namespaces;
  scale_up = scale_up;
  rate_limit = rate_limit_of t.core scale_up;
  transfer_ownership = t.transfer_ownership;
  wave_progress = progress;
  now = now;
  filters = filters_of t.core;
  argo_cd = t.core.argo_cd;
}

abbrev pub integrations_of : Target → IntegrationConfig
integrations_of t = record {
  core = t.core;
  schedule_name = t.schedule_name;
  namespaces = t.namespaces;
}

-- `&scaleWorkloadsResult{}`
abbrev pub no_pass : ScaleWorkloadsResult
no_pass = record {
  stats = no_stats;
  total_processed = 0;
  total_failed = 0;
  total_skipped = 0;
  total_workloads = 0;
  batch_limit_reached = false;
  wave_gate_reached = false;
  wave_progress = none;
}

-- A reconcile after its pass and its integrations: `deferWorkloadScaleUp`, `scaleResult` and
-- `stillWarmingUp`, with the cluster's state.
pub record Cycle (S : Type 0) : Type 0 where
  pub deferred : Bool
  pub result : ScaleWorkloadsResult
  pub warming : Bool
  pub state : S

pub data Cycled (S : Type 0) : Type 0 where
  cycled : Cycle S → Cycled S
  pass_failed : String → S → Cycled S

module _ (c : Cluster) (r : Resources c) (u : Util) (t : Target) where
  -- The integrations ahead of the pass, and whether they defer it.
  unfoldable pub integrations_before : Bool → ℤ → c.client.State → Bool × c.client.State
  integrations_before scale_up now s =
      if scale_up
      then integrations_up c r (integrations_of t) now s
      else (false, integrations_down c r (integrations_of t) s)

  -- The pass, unless it is deferred.
  unfoldable pub pass_of :
      Bool → Config → c.client.State → Result ScaleWorkloadsResult × c.client.State
  pass_of deferred cfg s =
      let (ended, s') = scale_workloads c cfg s in
      let answer : Result ScaleWorkloadsResult = elim ended [
        | done result ↦ ok result
        | cancelled result ↦ err u.cancellation
        | failed e ↦ err e
      ] in
      if deferred then (ok no_pass, s) else (answer, s')

  -- The integrations after the pass.
  unfoldable pub integrations_after :
      Bool → Bool → ScaleWorkloadsResult → ℤ → c.client.State → Cycle c.client.State
  integrations_after scale_up deferred result now s =
      let held = deferred || scale_up && result.wave_gate_reached in
      let (waiting, s') = integrations_warmup c r (integrations_of t) now s in
      if warmup_may_start scale_up deferred result
      then record { deferred = deferred; result = result; warming = waiting || held; state = s' }
      else record { deferred = deferred; result = result; warming = held; state = s }

  -- The three together, with the wave progress of the status before.
  unfoldable pub run_cycle :
      PeriodResult → NamespaceScheduleStatus → ℤ → c.client.State → Cycled c.client.State
  run_cycle p before now s =
      let scale_up = scales_up p in
      let progress = carried_wave_progress before.state before.wave_progress p in
      let (deferred, s1) = integrations_before scale_up now s in
      let (answer, s2) = pass_of deferred (config_of t scale_up progress now) s1 in
      elim answer [
        | err e ↦ pass_failed e s2
        | ok result ↦ cycled (integrations_after scale_up deferred result now s2)
      ]

-- The progress that is shown of a pass that stopped early.
abbrev pub progress_of : ScaleWorkloadsResult → Option ScalingProgress
progress_of result =
    if stopped_early result
    then some (record {
      total = result.total_workloads;
      completed = result.total_processed + result.total_skipped;
      failed = result.total_failed;
      in_progress = true;
    })
    else none

-- The Ready condition of a reconcile that succeeded, and of one that failed.
abbrev pub ready_condition : ℤ → String → Condition
ready_condition generation message = record {
  type = condition_type_ready;
  status = "True";
  reason = "ReconcileSucceeded";
  message = message;
  observed_generation = generation;
}

abbrev pub failed_condition : ℤ → String → Condition
failed_condition generation message = record {
  type = condition_type_ready;
  status = "False";
  reason = "ReconcileFailed";
  message = message;
  observed_generation = generation;
}

-- The status that a reconcile writes; while the scale-up is deferred the counts stay.
unfoldable pub next_status :
    {S : Type 0}
    → Util
    → (generation : ℤ) (message : String) → PeriodResult
    → Cycle S
    → TerminationReport
    → NamespaceScheduleStatus
    → NamespaceScheduleStatus
next_status u generation message p y termination before = record before {
  state = p.state;
  workload_stats = if y.deferred then before.workload_stats else y.result.stats;
  observed_generation = generation;
  next_upscale_time = some p.next_upscale;
  next_downscale_time = some p.next_downscale;
  stuck_terminating_pods = termination.stuck;
  scaling_progress = progress_of y.result;
  wave_progress = y.result.wave_progress;
  conditions = u.set_status_condition (ready_condition generation message) before.conditions;
}

-- The value of the gauge `ScheduleState`.
unfoldable pub state_value : Bool → String → ℕ
state_value warming state = if warming then 2 else if state == "Up" then 1 else 0

-- The answer of a reconcile that succeeded.
unfoldable pub answer_of :
    {S : Type 0} → ScheduleCore → PeriodResult → Cycle S → TerminationReport → ℤ → ℤ
answer_of core p y termination now =
    requeue_after p (scales_up p) y.result (rate_limit_of core (scales_up p)) y.warming termination
      now
