-- ===== src/Workload/Counts.antt =====
-- The counts of the status, one workload type at a time.
use lightsout.Base.{ℕ, ◌+◌, ◌≡◌, refl, List, [], ◌∷◌, arith}
use lightsout.Workload.{
  WorkloadType, deployment, stateful_set, cron_job, Workload, kind, WorkloadStats, no_stats,
  count_one, count_from, count_managed_workloads, record_scaled_workload,
}

abbrev pub managed_of : WorkloadType → WorkloadStats → ℕ
managed_of deployment t = t.deployments_managed
managed_of stateful_set t = t.stateful_sets_managed
managed_of cron_job t = t.cron_jobs_managed

abbrev pub scaled_of : WorkloadType → WorkloadStats → ℕ
scaled_of deployment t = t.deployments_scaled
scaled_of stateful_set t = t.stateful_sets_scaled
scaled_of cron_job t = t.cron_jobs_suspended

-- 1 for a workload of the type, else 0.
abbrev pub is_one : WorkloadType → WorkloadType → ℕ
is_one deployment deployment = 1
is_one stateful_set stateful_set = 1
is_one cron_job cron_job = 1
is_one _ _ = 0

abbrev pub how_many_of : WorkloadType → List Workload → ℕ
how_many_of k [] = 0
how_many_of k (w ∷ ws) = is_one k (kind w) + how_many_of k ws

pub managed-record_scaled :
    (k : WorkloadType) (t : WorkloadStats) (w : Workload)
    → managed_of k (record_scaled_workload t w) ≡ managed_of k t
unfolding record_scaled_workload
managed-record_scaled k t w = ground arith

pub scaled-record_scaled :
    (k : WorkloadType) (t : WorkloadStats) (w : Workload)
    → scaled_of k (record_scaled_workload t w) ≡ scaled_of k t + is_one k (kind w)
unfolding record_scaled_workload
scaled-record_scaled k t w = ground arith

count_one_lem :
    (k : WorkloadType) (t : WorkloadStats) (w : Workload)
    → (managed_of k (count_one t w) ≡ managed_of k t + is_one k (kind w))
      × (scaled_of k (count_one t w) ≡ scaled_of k t)
unfolding count_one
count_one_lem k t w = (ground arith, ground arith)

count_from_lem :
    (k : WorkloadType) (t : WorkloadStats) (ws : List Workload)
    → (managed_of k (count_from t ws) ≡ managed_of k t + how_many_of k ws)
      × (scaled_of k (count_from t ws) ≡ scaled_of k t)
unfolding count_from
count_from_lem k t [] = (ground arith, refl)
count_from_lem k t (w ∷ ws) =
    let one = count_one_lem k t w in
    let more = count_from_lem k (count_one t w) ws in
    (ground (arith, one.0, more.0), ground (arith, one.1, more.1))

-- At first every workload of a type is managed, and none is scaled.
pub count_managed_lem :
    (k : WorkloadType) (ws : List Workload)
    → (managed_of k (count_managed_workloads ws) ≡ how_many_of k ws)
      × (scaled_of k (count_managed_workloads ws) ≡ 0)
unfolding count_managed_workloads
count_managed_lem k ws =
    let all = count_from_lem k no_stats ws in (ground (arith, all.0), ground (arith, all.1))
