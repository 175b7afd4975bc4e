-- ===== src/Requeue/Bounds.antt =====
-- How long a reconcile waits for the next one, and what the wave gates see of the one before.
use lightsout.Base.{◌≡◌, Bool, true, ◌||◌, not, Option, arith, eqb}
use lightsout.Base.Int.{ℤ, pos, leb_ℤ, max_ℤ, ◌≤ℤ◌}
use lightsout.Constants.{second, minute, warmup_check_interval, termination_check_interval}
use lightsout.Api.{RateLimitConfig}
use lightsout.Batcher.{ScaleWorkloadsResult}
use lightsout.Period.{PeriodResult}
use lightsout.Termination.{TerminationReport}
use lightsout.Requeue.{time_until_next, calculate_requeue_after, requeue_after}

module _ (p : PeriodResult) (scale_up : Bool) (r : ScaleWorkloadsResult)
    (limit : Option RateLimitConfig) (warming : Bool) (t : TerminationReport) (now : ℤ) where
  -- A reconcile waits at least a second for the next one, and no longer than until the next
  -- transition, or a minute where that is nearer. While pods are on their way out it waits for five
  -- minutes at most; while something warms up or a wave is held, and no batch limit was reached,
  -- for thirty seconds at most.
  pub requeue_bounds :
      (pos second ≤ℤ requeue_after p scale_up r limit warming t now)
      × (requeue_after p scale_up r limit warming t now
          ≤ℤ max_ℤ (time_until_next p scale_up now) (pos minute))
      × ((eqb t.terminating 0
            || leb_ℤ (requeue_after p scale_up r limit warming t now) termination_check_interval)
          ≡ true)
      × ((not (warming || r.wave_gate_reached)
            || r.batch_limit_reached
            || leb_ℤ (requeue_after p scale_up r limit warming t now) warmup_check_interval)
          ≡ true)
  unfolding requeue_after calculate_requeue_after
  requeue_bounds = (ground arith, ground arith, ground arith, ground arith)
