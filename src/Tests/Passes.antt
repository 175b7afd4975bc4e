-- ===== src/Tests/Passes.antt =====
-- A whole pass on a small cluster.
use lightsout.Base.{
  ◌≤◌, String, ◌≡◌, refl, true, false, ◌&&◌, Option, none, some, List, [], ◌∷◌, ok, String-discrete,
  ltb, eqb,
}
use lightsout.Base.Dict.{Dict, lookup, get, insert, erase}
use lightsout.Base.Int.{pos, ◌-ℤ◌}
use lightsout.Base.Decimal.{itoa, parse_int}
use lightsout.Constants.{managed_by_label}
use lightsout.Json.{get_member, set_member, dig}
use lightsout.Kube.Objects.{Replicated}
use lightsout.Kube.Patch.{build}
use lightsout.Kube.Client.{apply_merge_patch}
use lightsout.Kube.Cluster.{Cluster, no_match, list_hpas, should_exclude_workload}
use lightsout.Kube.Memory.{memory_client, running}
use lightsout.Workload.{
  Workload, of_deployment, workload_settled, has_controller_owner, is_scaled_down_by_lights_out,
  count_managed_workloads, record_scaled_workload,
}
use lightsout.Scaler.Hpa.{find_hpa, patch_hpa_for_downscale, restore_hpa}
use lightsout.Scaler.Replicas.{scale_replicas, write_down, write_up, parse_replicas}
use lightsout.Scaler.CronJobs.{scale_cron_job}
use lightsout.Base.Text.{trim_space}
use lightsout.SyncWave.{
  sync_wave, at_most, sort_workloads_by_wave, wave_gates, wave_settled, waiting_since, wave_gate,
}
use lightsout.Collect.{Filters, should_process_workload_type, collect_workloads}
use lightsout.Collect.Laws.{AllOk, IsAsked, collect_passes_filters}
use lightsout.Api.{RateLimitConfig}
use lightsout.Batcher.{
  Config, ScaleWorkloadsResult, stopped_early, Ended, done, cancelled, failed, scale_one, tally,
  cross, visit, scale_loop, start, scale_collected, initial_budget, sync_wave_settings,
}
use lightsout.Batcher.Bounds.{accounted}
use lightsout.Workload.{deployment}
use lightsout.Workload.Counts.{scaled_of, managed_of, how_many_of}
use lightsout.Batcher.Stats.{scaled_within_managed}
use lightsout.Batcher.Stops.{pass_accounts, pass_within_budget}

-- One name for all that a run of a pass computes through.
unfoldable pub run_pass : Unit {0}
unfolding scale_replicas write_down write_up parse_replicas patch_hpa_for_downscale restore_hpa
    find_hpa apply_merge_patch build memory_client running dig get_member set_member get lookup
    insert erase itoa parse_int String-discrete scale_cron_job sync_wave trim_space at_most
    sort_workloads_by_wave wave_gates wave_settled waiting_since wave_gate workload_settled
    has_controller_owner is_scaled_down_by_lights_out count_managed_workloads record_scaled_workload
    should_process_workload_type collect_workloads scale_one tally cross visit scale_loop start
    scale_collected initial_budget sync_wave_settings should_exclude_workload list_hpas ◌-ℤ◌
run_pass = tt

abbrev pub named : String → Dict String → Replicated
named name labels = record {
  meta = record {
    name = name;
    namespace = "team";
    labels = labels;
    annotations = [];
    owner_references = [];
    generation = pos 1;
  };
  replicas = some (pos 2);
  observed_generation = pos 1;
  status_replicas = pos 2;
  ready_replicas = pos 2;
}

-- One namespace with three deployments, of which another schedule manages one.
abbrev pub small : Cluster
small = record {
  client = memory_client;
  list_deployments = λ ns s.
      ok (named "api" [] ∷ named "db" ((managed_by_label, "weekend") ∷ []) ∷ named "web" [] ∷ []);
  list_stateful_sets = λ ns s. ok [];
  list_cron_jobs = λ ns s. ok [];
  hpa_listing = λ ns s. no_match;
  list_pods = λ ns s. ok [];
  list_apps = λ ns s. no_match;
  list_flux = λ kind ns s. no_match;
  format_time = λ t. "";
  parse_time = λ text. none;
  matches = λ selector labels. ok false;
  cancelled = λ s. false;
}

abbrev pub every : Filters
every = record { workload_types = []; exclude_labels = none; include_owned_workloads = false }

abbrev pub downscale : Option RateLimitConfig → Config
downscale limit = record {
  schedule_name = "night";
  namespaces = "team" ∷ [];
  scale_up = false;
  rate_limit = limit;
  transfer_ownership = false;
  wave_progress = none;
  now = pos 100;
  filters = every;
  argo_cd = none;
}

abbrev pub batch_of_one : Option RateLimitConfig
batch_of_one = some (record { batch_size = some (pos 1); delay_between_batches = none })

abbrev pub two : List Workload
two = of_deployment (named "api" []) ∷ of_deployment (named "web" []) ∷ []

abbrev pub outcome : Ended → ScaleWorkloadsResult
outcome (done r) = r
outcome (cancelled r) = r
outcome (failed e) = record {
  stats = count_managed_workloads [];
  total_processed = 0;
  total_failed = 0;
  total_skipped = 0;
  total_workloads = 0;
  batch_limit_reached = false;
  wave_gate_reached = false;
  wave_progress = none;
}

abbrev limited : ScaleWorkloadsResult
limited = outcome (scale_collected small (downscale batch_of_one) two running).0

abbrev pub full : ScaleWorkloadsResult
full = outcome (scale_collected small (downscale none) two running).0

limited_runs :
    (limited.total_processed ≡ 1)
    × (limited.batch_limit_reached ≡ true)
    × (full.total_processed ≡ 2)
    × (full.batch_limit_reached ≡ false)
unfolding run_pass
limited_runs = (refl, refl, refl, refl)

collect_passes_filters_example :
    AllOk
      (IsAsked small every "night")
      (collect_workloads small every "night" false ("team" ∷ []) running)
collect_passes_filters_example = collect_passes_filters small every "night" ("team" ∷ []) running

pass_accounts_example :
    (accounted limited ≤ 2) × (stopped_early limited ≡ ltb (accounted limited) 2)
unfolding run_pass
pass_accounts_example = pass_accounts small (downscale batch_of_one) two running limited refl

pass_within_budget_example :
    (limited.total_processed ≤ 1)
    × (limited.batch_limit_reached ≡ (eqb limited.total_processed 1 && ltb (accounted limited) 2))
unfolding run_pass
pass_within_budget_example =
    pass_within_budget small (downscale batch_of_one) two running limited refl 0 refl

scaled_within_managed_example :
    (scaled_of deployment limited.stats ≤ managed_of deployment limited.stats)
    × (managed_of deployment limited.stats ≡ how_many_of deployment two)
unfolding run_pass
scaled_within_managed_example =
    scaled_within_managed deployment small (downscale batch_of_one) two running limited refl
