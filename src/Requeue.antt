-- ===== src/Requeue.antt =====
-- When internal/controller/lightsoutschedule_controller.go reconciles again, and what it carries
-- over from the reconcile before: `calculateRequeueAfter`, `carriedWaveProgress`, and
-- `warmupMayStart` of internal/controller/integrations.go.
pub mod Bounds
pub mod Carried
use lightsout.Base.{ℕ, String, Bool, ◌&&◌, ◌||◌, not, Option, none, some, ltb}
use lightsout.Base.{◌==◌, if◌then◌else◌}
use lightsout.Base.Int.{ℤ, pos, ltb_ℤ, min_ℤ, max_ℤ, ◌-ℤ◌}
use lightsout.Constants.{second, minute, warmup_check_interval}
use lightsout.SyncWave.{WaveProgress}
use lightsout.Api.{RateLimitConfig}
use lightsout.Batcher.{ScaleWorkloadsResult, stopped_early}
use lightsout.Period.{PeriodResult}
use lightsout.Termination.{TerminationReport, apply_termination_requeue}

-- The time until the next transition: the other schedule's next activation.
abbrev pub time_until_next : PeriodResult → Bool → ℤ → ℤ
time_until_next p scale_up now = if scale_up then p.next_downscale -ℤ now else p.next_upscale -ℤ now

abbrev batch_delay : Option RateLimitConfig → ℤ → ℤ
batch_delay none until = until
batch_delay (some r) until = elim (r.delay_between_batches) [
  | none ↦ until
  | some d ↦ if ltb_ℤ d until then d else until
]

-- `calculateRequeueAfter`
unfoldable pub calculate_requeue_after :
    PeriodResult → Bool → ScaleWorkloadsResult → Option RateLimitConfig → Bool → ℤ → ℤ
calculate_requeue_after p scale_up r limit still_warming_up now =
    let until = time_until_next p scale_up now in
    if r.batch_limit_reached
    then max_ℤ (batch_delay limit until) (pos second)
    else if still_warming_up || r.wave_gate_reached
    then max_ℤ (min_ℤ warmup_check_interval until) (pos second)
    else max_ℤ until (pos minute)

-- The requeue at the end of `Reconcile`, with the pods that are still on their way out.
unfoldable pub requeue_after :
    PeriodResult
    → Bool
    → ScaleWorkloadsResult
    → Option RateLimitConfig
    → Bool
    → TerminationReport
    → ℤ
    → ℤ
requeue_after p scale_up r limit still_warming_up termination now =
    apply_termination_requeue (calculate_requeue_after p scale_up r limit still_warming_up now)
      termination (not scale_up && ltb 0 r.total_processed)

-- `carriedWaveProgress`, from the state and the progress of the schedule's status
unfoldable pub carried_wave_progress :
    String → Option WaveProgress → PeriodResult → Option WaveProgress
carried_wave_progress state progress p = if state == p.state then progress else none

-- `warmupMayStart`
unfoldable pub warmup_may_start : Bool → Bool → ScaleWorkloadsResult → Bool
warmup_may_start scale_up defer_scale_up r = scale_up && not defer_scale_up && not (stopped_early r)
