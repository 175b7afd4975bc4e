-- ===== src/Tests/Cycles.antt =====
-- The cycle of a reconcile, and its history, on concrete data.
use lightsout.Base.{◌+◌, ◌*◌, ◌<◌, String, ◌≡◌, refl, true, false, none, some, List, [], ◌∷◌, ok}
use lightsout.Base.Int.{pos, leb_ℤ}
use lightsout.Constants.{hour, argo_cd_sync_wave_annotation, warmup_check_interval}
use lightsout.Json.{Json, obj, end}
use lightsout.Api.{ScheduleCore}
use lightsout.Kube.Objects.{Replicated}
use lightsout.Kube.Cluster.{Cluster}
use lightsout.Kube.Memory.{running}
use lightsout.Period.{PeriodResult}
use lightsout.Termination.{no_report}
use lightsout.CustomResource.Access.{discover_custom_resources}
use lightsout.CustomResource.Fields.{restore_custom_resource_fields}
use lightsout.CustomResource.Ready.{custom_resource_ready}
use lightsout.CustomResource.{restore_each}
use lightsout.CustomResource.Warmup.{
  handle_custom_resource_warmup, warm_entries, warm_resources, warm_custom_resource,
  namespace_ready,
}
use lightsout.GitOps.Readiness.{check_workload_readiness, scan, check_pods, check_stateful_sets}
use lightsout.GitOps.Marks.{recorded_start, warming_up_since}
use lightsout.Integrations.{integrations_up}
use lightsout.Reconciler.Cycle.{
  Target, scales_up, Cycle, Cycled, cycled, pass_failed, no_pass, run_cycle, next_status,
  state_value, answer_of, integrations_of,
}
use lightsout.Reconciler.Cycle.Laws.{progress_unfinished, deferral_waits}
use lightsout.Reconciler.History.{fresh, reconciled, carried_same_direction}
use lightsout.Tests.Passes.{small, named}
use lightsout.Tests.Reconciles.{core, blank, databases, util, tonight, run_reconcile}

abbrev target : ScheduleCore → Target
target c = record {
  core = c;
  schedule_name = "night";
  namespaces = "team" ∷ [];
  transfer_ownership = false;
}

abbrev cycle_of : {S : Type 0} → Cycled S → S → Cycle S
cycle_of (cycled y) s = y
cycle_of (pass_failed e s') s = record {
  deferred = false;
  result = no_pass;
  warming = false;
  state = s;
}

abbrev ran : Cycle small.client.State
ran =
    cycle_of
      (run_cycle small (databases small []) util (target core) tonight blank (pos (21 * hour))
        running)
      running

progress_unfinished_example : 1 + 0 < 3
unfolding run_reconcile
progress_unfinished_example =
    progress_unfinished small (databases small []) util (target core) tonight blank
      (pos (21 * hour)) running ran
      (record { total = 3; completed = 1; failed = 0; in_progress = true }) refl refl

abbrev today : PeriodResult
today = record tonight {
  state = "Up";
  last_downscale = pos (2 * hour);
  next_upscale = pos (44 * hour);
  next_downscale = pos (32 * hour);
}

-- What the warm-up of a custom resource computes through.
run_warmup : Unit {0}
unfolding discover_custom_resources restore_each restore_custom_resource_fields
    custom_resource_ready handle_custom_resource_warmup warm_custom_resource namespace_ready
    check_workload_readiness scan check_pods check_stateful_sets recorded_start warming_up_since
    warm_entries warm_resources
run_warmup = tt

-- A schedule that restores databases first.
abbrev with_database : ScheduleCore
with_database = record core {
  custom_resources =
      record {
        group = "postgresql.cnpg.io";
        version = "v1";
        kind = "Cluster";
        name = "";
        match_labels = [];
        set_fields = [];
        ready_when = [];
        delete = false;
      }
      ∷ [];
}

-- A deployment of which no pod is ready yet.
abbrev starting : Cluster
starting = record small {
  list_deployments = λ ns s. ok (record (named "api" []) { ready_replicas = pos 0 } ∷ []);
}

abbrev found : List Json
found = obj end ∷ []

abbrev waits : Cycle starting.client.State
waits =
    cycle_of
      (run_cycle starting (databases starting found) util (target with_database) today blank
        (pos (9 * hour)) running)
      running

deferral_waits_example :
    (scales_up today ≡ true)
    × (waits.state
        ≡ (integrations_up starting
            (databases starting found)
            (integrations_of (target with_database))
            (pos (9 * hour))
            running).1)
    × ((next_status util (pos 3) "done" today waits no_report blank).workload_stats
        ≡ blank.workload_stats)
    × (state_value waits.warming "Up" ≡ 2)
    × (leb_ℤ (answer_of with_database today waits no_report (pos (9 * hour))) warmup_check_interval
        ≡ true)
unfolding run_reconcile run_warmup
deferral_waits_example =
    deferral_waits starting (databases starting found) util (target with_database) today blank
      (pos (9 * hour)) running waits no_report (pos 3) "done" refl refl

-- Two waves of deployments, of which the second is scaled down first and has not settled.
abbrev in_wave : String → String → Replicated
in_wave name wave =
    let d = named name [] in
    record d { meta = record d.meta { annotations = (argo_cd_sync_wave_annotation, wave) ∷ [] } }

abbrev waves : Cluster
waves = record small { list_deployments = λ ns s. ok (in_wave "api" "0" ∷ in_wave "web" "1" ∷ []) }

abbrev by_waves : ScheduleCore
by_waves = record core {
  argo_cd = some (record { namespace = ""; warmup_timeout = none; sync_waves = true });
  downscale_rate_limit = none;
}

abbrev wave_part : Cycle waves.client.State
wave_part =
    cycle_of
      (run_cycle waves (databases waves []) util (target by_waves) tonight blank (pos (21 * hour))
        running)
      running

carried_same_direction_example :
    (wave_part.result.wave_progress ≡ some (record { wave = pos 1; since = pos (21 * hour) }))
    × (false ≡ scales_up tonight)
unfolding run_reconcile
carried_same_direction_example =
    carried_same_direction waves (databases waves []) util tonight
      (record { wave = pos 1; since = pos (21 * hour) })
      (reconciled (fresh blank false refl) (target by_waves) tonight (pos (21 * hour)) (pos 3)
        "done" running wave_part no_report refl)
      refl
