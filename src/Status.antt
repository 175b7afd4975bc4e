-- ===== src/Status.antt =====
-- The statuses of api/v1alpha1, and a schedule as the API server stores it.
use lightsout.Base.{ℕ, String, Bool, Option, List}
use lightsout.Base.Int.{ℤ}
use lightsout.Workload.{WorkloadStats}
use lightsout.SyncWave.{WaveProgress}

-- `metav1.Condition`, without its time.
pub record Condition : Type 0 where
  pub type : String
  pub status : String
  pub reason : String
  pub message : String
  pub observed_generation : ℤ

-- `ScalingProgress`
pub record ScalingProgress : Type 0 where
  pub total : ℕ
  pub completed : ℕ
  pub failed : ℕ
  pub in_progress : Bool

-- `LightsOutNamespaceScheduleStatus`
pub record NamespaceScheduleStatus : Type 0 where
  pub state : String
  pub last_upscale_time : Option ℤ
  pub last_downscale_time : Option ℤ
  pub next_upscale_time : Option ℤ
  pub next_downscale_time : Option ℤ
  pub observed_generation : ℤ
  pub workload_stats : WorkloadStats
  pub scaling_progress : Option ScalingProgress
  pub wave_progress : Option WaveProgress
  pub stuck_terminating_pods : ℕ
  pub conditions : List Condition

-- `LightsOutScheduleStatus`: the same fields, and the namespaces.
pub record ScheduleStatus : Type 0 where
  pub common : NamespaceScheduleStatus
  pub namespaces : List String

-- A schedule with the metadata that the reconcilers read, and its status.
pub record Stored (Sched Status : Type 0) : Type 0 where
  pub schedule : Sched
  pub generation : ℤ
  pub finalizers : List String
  pub deletion_timestamp : Option ℤ
  pub status : Status
