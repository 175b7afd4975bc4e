-- ===== src/Workload.antt =====
-- `Workload` of internal/controller/batcher.go: a typed object behind one interface, and what is
-- read off it. `WorkloadFromDeployment` and its siblings are the constructors.
pub mod Counts
use lightsout.Base.{ℕ, ◌+◌, String, Bool, true, false, Option, none, some, List, [], ◌∷◌}
use lightsout.Base.{◌==◌, ◌!=◌, if◌then◌else◌}
use lightsout.Base.Dict.{Dict, get}
use lightsout.Base.Int.{pos, ltb_ℤ, leb_ℤ, eqb_ℤ}
use lightsout.Constants.{
  original_replicas_annotation, original_suspend_annotation, suspended_by_lights_out,
}
use lightsout.Kube.Objects.{ObjectMeta, Replicated, CronJob, deref}

pub data WorkloadType : Type 0 where
  deployment stateful_set cron_job : WorkloadType

pub data Workload : Type 0 where
  of_deployment : Replicated → Workload
  of_stateful_set : Replicated → Workload
  of_cron_job : CronJob → Workload

abbrev pub kind : Workload → WorkloadType
kind (of_deployment d) = deployment
kind (of_stateful_set d) = stateful_set
kind (of_cron_job j) = cron_job

abbrev pub meta : Workload → ObjectMeta
meta (of_deployment d) = d.meta
meta (of_stateful_set d) = d.meta
meta (of_cron_job j) = j.meta

-- `workloadAnnotations`
abbrev pub workload_annotations : Workload → Dict String
workload_annotations (of_deployment d) = d.meta.annotations
workload_annotations (of_stateful_set d) = d.meta.annotations
workload_annotations (of_cron_job j) = j.meta.annotations

-- `hasControllerOwner`
unfoldable pub has_controller_owner : List (Option Bool) → Bool
has_controller_owner [] = false
has_controller_owner (none ∷ refs) = has_controller_owner refs
has_controller_owner (some b ∷ refs) =
    let rest = has_controller_owner refs in if b then true else rest

-- `isScaledDownByLightsOut`
unfoldable pub is_scaled_down_by_lights_out : Workload → Bool
is_scaled_down_by_lights_out (of_deployment d) =
    get original_replicas_annotation d.meta.annotations != ""
is_scaled_down_by_lights_out (of_stateful_set d) =
    get original_replicas_annotation d.meta.annotations != ""
is_scaled_down_by_lights_out (of_cron_job j) =
    get original_suspend_annotation j.meta.annotations == suspended_by_lights_out

settled_replicas : Replicated → Bool → Bool
settled_replicas d scale_up =
    if ltb_ℤ d.observed_generation d.meta.generation
    then false
    else if scale_up
    then leb_ℤ (deref d.replicas (pos 1)) d.ready_replicas
    else eqb_ℤ d.status_replicas (pos 0)

-- `workloadSettled` of internal/controller/syncwave.go
unfoldable pub workload_settled : Workload → Bool → Bool
unfolding settled_replicas
workload_settled (of_deployment d) scale_up = settled_replicas d scale_up
workload_settled (of_stateful_set d) scale_up = settled_replicas d scale_up
workload_settled (of_cron_job j) scale_up = true

-- `WorkloadStats` of api/v1alpha1/lightsoutschedule_types.go
pub record WorkloadStats : Type 0 where
  pub deployments_managed : ℕ
  pub deployments_scaled : ℕ
  pub stateful_sets_managed : ℕ
  pub stateful_sets_scaled : ℕ
  pub cron_jobs_managed : ℕ
  pub cron_jobs_suspended : ℕ

abbrev pub no_stats : WorkloadStats
no_stats = record {
  deployments_managed = 0;
  deployments_scaled = 0;
  stateful_sets_managed = 0;
  stateful_sets_scaled = 0;
  cron_jobs_managed = 0;
  cron_jobs_suspended = 0;
}

count_one : WorkloadStats → Workload → WorkloadStats
count_one t (of_deployment d) = record t { deployments_managed = t.deployments_managed + 1 }
count_one t (of_stateful_set d) = record t { stateful_sets_managed = t.stateful_sets_managed + 1 }
count_one t (of_cron_job j) = record t { cron_jobs_managed = t.cron_jobs_managed + 1 }

count_from : WorkloadStats → List Workload → WorkloadStats
count_from t [] = t
count_from t (w ∷ ws) = count_from (count_one t w) ws

-- `countManagedWorkloads`
unfoldable pub count_managed_workloads : List Workload → WorkloadStats
unfolding count_from count_one
count_managed_workloads ws = count_from no_stats ws

-- `recordScaledWorkload`
unfoldable pub record_scaled_workload : WorkloadStats → Workload → WorkloadStats
record_scaled_workload t (of_deployment d) = record t {
  deployments_scaled = t.deployments_scaled + 1;
}
record_scaled_workload t (of_stateful_set d) = record t {
  stateful_sets_scaled = t.stateful_sets_scaled + 1;
}
record_scaled_workload t (of_cron_job j) = record t {
  cron_jobs_suspended = t.cron_jobs_suspended + 1;
}
