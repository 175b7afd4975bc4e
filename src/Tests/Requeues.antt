-- ===== src/Tests/Requeues.antt =====
-- Terminating pods, requeues and carried progress on concrete data.
use lightsout.Base.{
  ◌*◌, ◌≡◌, refl, String, true, false, Option, none, some, List, [], ◌∷◌, String-discrete, length,
  Result, ok,
}
use lightsout.Base.Names.{sort_names}
use lightsout.Base.Dict.{lookup, insert}
use lightsout.Base.Int.{ℤ, pos, ◌+ℤ◌, ◌-ℤ◌}
use lightsout.Constants.{minute, hour}
use lightsout.SyncWave.{WaveProgress}
use lightsout.Batcher.Bounds.{accounted}
use lightsout.Period.{PeriodResult}
use lightsout.Kube.Objects.{Pod}
use lightsout.Termination.{
  TerminationReport, is_termination_overdue, is_terminating, is_stuck, count_pod, count_pods,
  count_from, count_terminating_pods,
}
use lightsout.Termination.Gauge.{gauge_after, stuck_in, gauge_follows}
use lightsout.Base.{ℕ, contains, if◌then◌else◌}
use lightsout.Requeue.{calculate_requeue_after, requeue_after, warmup_may_start}
use lightsout.Requeue.Carried.{warmup_visits_all}
use lightsout.Kube.Memory.{running}
use lightsout.Tests.Passes.{small, downscale, two, full, run_pass}

abbrev pod : String → Option ℤ → String → Pod
pod name deleted phase = record {
  name = name;
  deletion_timestamp = deleted;
  deletion_grace_period_seconds = some (pos 30);
  phase = phase;
  controller_kind = none;
  conditions = [];
}

abbrev pods : List Pod
pods =
    pod "new" none "Running"
    ∷ pod "wedged" (some (pos 0)) "Running"
    ∷ pod "going" (some (pos (9 * minute))) "Running"
    ∷ pod "ended" (some (pos 0)) "Succeeded"
    ∷ []

abbrev list_pods : String → Unit {0} → Result (List Pod)
list_pods ns s = ok pods

abbrev report : TerminationReport
report = (count_terminating_pods list_pods (pos (10 * minute)) tt ("team" ∷ [])).0

run_pods : Unit {0}
unfolding String-discrete lookup insert is_termination_overdue is_terminating is_stuck count_pods
    count_pod sort_names count_from ◌+ℤ◌ ◌-ℤ◌ calculate_requeue_after requeue_after warmup_may_start
run_pods = tt

report_runs :
    (report.terminating ≡ 2) × (report.stuck ≡ 1) × (report.stuck_names ≡ "team/wedged" ∷ [])
unfolding run_pods
report_runs = (refl, refl, refl)

abbrev night : PeriodResult
night = record {
  state = "Down";
  next_upscale = pos (20 * hour);
  next_downscale = pos (30 * hour);
  last_upscale = pos 0;
  last_downscale = pos (9 * hour);
}

requeue_runs : requeue_after night false full none false report (pos (10 * hour)) ≡ pos (5 * minute)
unfolding run_pods run_pass
requeue_runs = refl

abbrev passed_all : WaveProgress
passed_all = record { wave = pos 9; since = pos 10 }

warmup_visits_all_example : (true ≡ true) × (false ≡ false) × (accounted full ≡ length two)
unfolding run_pods run_pass
warmup_visits_all_example =
    warmup_visits_all small (downscale none) two running full true false refl refl

gauge_follows_example :
    lookup "team" (gauge_after list_pods (pos (10 * minute)) tt ("team" ∷ []) false []) ≡ (
      if contains ("team" ∷ []) "team"
      then some (if false then 0 else stuck_in list_pods (pos (10 * minute)) tt "team")
      else lookup {V = ℕ} "team" [])
unfolding run_pods
gauge_follows_example =
    gauge_follows list_pods (pos (10 * minute)) tt ("team" ∷ []) false [] "team" refl
