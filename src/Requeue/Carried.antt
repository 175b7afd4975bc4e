-- ===== src/Requeue/Carried.antt =====
-- What a reconcile carries over: the wave progress of its own direction only, and the warm-up of
-- the integrations after a pass that visited every workload.
use lightsout.Base.{
  ◌≡◌, ◌≢◌, refl, String, Bool, true, false, ◌&&◌, not, Option, none, List, arith, length,
}
use lightsout.Base.Int.{ℤ, pos, ltb_ℤ}
use lightsout.Kube.Cluster.{Cluster}
use lightsout.Workload.{Workload}
use lightsout.SyncWave.{WaveProgress, wave_settled, wave_gate}
use lightsout.SyncWave.Gate.{first_gate}
use lightsout.Batcher.{Config, ScaleWorkloadsResult, done, scale_collected}
use lightsout.Batcher.Bounds.{accounted}
use lightsout.Batcher.Stops.{pass_accounts}
use lightsout.Period.{PeriodResult}
use lightsout.Requeue.{carried_wave_progress, warmup_may_start}

other_direction :
    (state : String) (progress : Option WaveProgress) (p : PeriodResult)
    → state ≢ p.state
    → carried_wave_progress state progress p ≡ none
unfolding carried_wave_progress
other_direction state progress p h = ground arith

-- After a change of the direction a gate holds its wave exactly if a member of the wave has not
-- settled and the timeout is positive: no wave counts as passed in the other direction.
turned_gate_holds :
    (state : String) (progress : Option WaveProgress) (p : PeriodResult) (wave : ℤ)
    (members : List Workload) (scale_up : Bool) (timeout now : ℤ)
    → state ≢ p.state
    → (wave_gate (carried_wave_progress state progress p) wave members scale_up timeout now).1
      ≡ (not (wave_settled members scale_up).0 && ltb_ℤ (pos 0) timeout)
turned_gate_holds state progress p wave members scale_up timeout now h =
    rw (other_direction state progress p h, first_gate wave members scale_up timeout now) refl

-- The integrations may warm up only on the way up, without a deferral, and after a pass that
-- accounts for every workload that was collected.
pub warmup_visits_all :
    (c : Cluster) (cfg : Config) (ws : List Workload) (s : c.client.State)
    (r : ScaleWorkloadsResult) (scale_up deferred : Bool)
    → (scale_collected c cfg ws s).0 ≡ done r
    → warmup_may_start scale_up deferred r ≡ true
    → (scale_up ≡ true) × (deferred ≡ false) × (accounted r ≡ length ws)
unfolding warmup_may_start
warmup_visits_all c cfg ws s r scale_up deferred ended h =
    let a = pass_accounts c cfg ws s r ended in
    (ground arith, ground arith, ground (arith, a.0, a.1))
