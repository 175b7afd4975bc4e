-- ===== src/Tests/Reconciles.antt =====
-- The two reconcilers on a small cluster.
use lightsout.Base.{
  ◌*◌, String, ◌≡◌, refl, false, true, not, ◌&&◌, ◌||◌, Option, none, some, List, [], ◌∷◌, ◌++◌,
  any, contains, ok, err, ◌==◌, if◌then◌else◌,
}
use lightsout.Base.Names.{sort_names}
use lightsout.Base.Int.{ℤ, pos, ◌+ℤ◌, ◌-ℤ◌}
use lightsout.Constants.{
  minute, hour, managed_by_label, state_label, state_warming_up, managed_by_annotation,
  original_replicas_annotation, finalizer_name,
}
use lightsout.Api.{ScheduleCore}
use lightsout.Kube.Objects.{Replicated, CronJob}
use lightsout.Kube.Cluster.{Cluster, LabelSelector, listed}
use lightsout.Kube.Memory.{memory_client-IsMergePatch, running}
use lightsout.Workload.{no_stats}
use lightsout.Batcher.{scale_workloads}
use lightsout.Namespaces.{
  add_all, remove_all, keys, selected, discover_namespaces, filter_namespaces_with_local_schedules,
}
use lightsout.Period.{Calendar, PeriodCache, PeriodResult, get_cached_period, calculate_period}
use lightsout.Termination.{count_pods, count_from, check_termination}
use lightsout.Requeue.{
  carried_wave_progress, warmup_may_start, requeue_after, calculate_requeue_after,
}
use lightsout.GitOps.ArgoCd.{
  discover_argo_cd_apps, label_argo_cd_apps_down, label_each_app_down, handle_argo_cd_warmup,
}
use lightsout.GitOps.FluxCd.Discover.{discover_flux_resources}
use lightsout.CustomResource.{
  custom_resources_down, custom_resources_up, restore_all_custom_resources,
}
use lightsout.CustomResource.Access.{Resources, deleted}
use lightsout.Json.{Json}
use lightsout.Integrations.{integrations_down, integrations_up, integrations_warmup}
use lightsout.Status.{NamespaceScheduleStatus}
use lightsout.Reconciler.Server.{Store, Lists, Util, fetched}
use lightsout.Reconciler.Restore.{
  restore_items, restore_listed, restore_namespace, restore_namespaces, unlabel_each, resume_each,
  restore_apps, restore_flux, restore_managed_workloads,
}
use lightsout.Reconciler.Orphans.{
  add_orphans, discover_orphaned_namespaces, release_orphaned_namespaces,
}
use lightsout.Reconciler.Orphans.Laws.{lies_in, orphaned_namespaces, local_schedule_wins}
use lightsout.Reconciler.Cycle.{
  integrations_before, pass_of, integrations_after, run_cycle, next_status, state_value, answer_of,
}
use lightsout.Reconciler.Steps.{register, end_deletion, period_of}
use lightsout.Reconciler.Global
use lightsout.Reconciler.Global.{StoredSchedule}
use lightsout.Reconciler.Deletion.{IsDeleted, deletion_restores}
use lightsout.Reconciler.Wakes.{IsTimely, reconcile-IsTimely}
use lightsout.Tests.Passes.{small, named, batch_of_one, run_pass}

-- One name for all that a reconcile computes through.
unfoldable pub run_reconcile : Unit {0}
unfolding run_pass scale_workloads add_all remove_all keys selected discover_namespaces sort_names
    filter_namespaces_with_local_schedules get_cached_period calculate_period count_pods count_from
    check_termination carried_wave_progress warmup_may_start requeue_after calculate_requeue_after
    discover_argo_cd_apps label_argo_cd_apps_down label_each_app_down handle_argo_cd_warmup
    discover_flux_resources custom_resources_down custom_resources_up restore_all_custom_resources
    integrations_down integrations_up integrations_warmup restore_items restore_listed
    restore_namespace restore_namespaces unlabel_each resume_each restore_apps restore_flux
    restore_managed_workloads add_orphans discover_orphaned_namespaces release_orphaned_namespaces
    integrations_before pass_of integrations_after run_cycle next_status state_value answer_of
    register end_deletion Global.handle_deletion Global.conclude Global.reconcile_targets
    Global.reconcile_active Global.reconcile ◌+ℤ◌
run_reconcile = tt

abbrev pub core : ScheduleCore
core = record {
  upscale = "0 8 * * *";
  downscale = "0 20 * * *";
  timezone = "";
  suspend = false;
  workload_types = [];
  exclude_labels = none;
  include_owned_workloads = false;
  upscale_rate_limit = none;
  downscale_rate_limit = batch_of_one;
  argo_cd = none;
  flux_cd = none;
  custom_resources = [];
  custom_resource_warmup_timeout = none;
}

-- One database, which the schedule restored long ago and its operator has not finished.
abbrev pub databases : (c : Cluster) → List Json → Resources c
databases c found = record {
  endpoint = record { current = λ s o. o; patch = λ o p s. (ok o, s) };
  list_resources = λ cfg ns s. listed found;
  update = λ o s. (ok o, s);
  delete_resource = λ o s. (deleted, s);
  meta_of = λ o. record {
    name = "db";
    namespace = "team";
    labels = (state_label, state_warming_up) ∷ (managed_by_label, "night") ∷ [];
    annotations = [];
    owner_references = [];
    generation = pos 2;
  };
  set_labels = λ d o. o;
  set_annotations = λ d o. o;
  nested_int64 = λ o path. none;
  nested_slice = λ o path. none;
  encode = λ fields. ok "fields";
  decode = λ text. ok [];
  overflowed = pos 0;
}

abbrev pub blank : NamespaceScheduleStatus
blank = record {
  state = "";
  last_upscale_time = none;
  last_downscale_time = none;
  next_upscale_time = none;
  next_downscale_time = none;
  observed_generation = pos 0;
  workload_stats = no_stats;
  scaling_progress = none;
  wave_progress = none;
  stuck_terminating_pods = 0;
  conditions = [];
}

abbrev pub stored : Option LabelSelector → Option ℤ → StoredSchedule
stored selector gone_at = record {
  schedule = record {
    name = "night";
    core = core;
    choice = record {
      namespace_selector = selector;
      namespaces = "team" ∷ "web" ∷ [];
      exclude_namespaces = [];
    };
  };
  generation = pos 3;
  finalizers = finalizer_name ∷ [];
  deletion_timestamp = gone_at;
  status = record { common = blank; namespaces = [] };
}

-- A deployment that the schedule scaled down from three replicas.
abbrev asleep : String → Replicated
asleep ns =
    let d = named "api" ((managed_by_label, "night") ∷ []) in
    record d {
      meta = record d.meta {
        namespace = ns;
        annotations = (original_replicas_annotation, "3") ∷ (managed_by_annotation, "night") ∷ [];
      };
      replicas = some (pos 0);
    }

abbrev asleep_in : Option String → List Replicated
asleep_in none = asleep "team" ∷ asleep "old" ∷ []
asleep_in (some ns) = if ns == "team" then asleep "team" ∷ [] else []

-- The namespace "web" holds a schedule of its own.
abbrev pub lists : Lists small
lists = record {
  deployments = λ ns name s. ok (asleep_in ns);
  stateful_sets = λ ns name s. ok [];
  cron_jobs = λ ns name s. ok [];
  select = λ l s. err "the selector is not valid";
  local_schedules = λ ns s. ok (if ns == "web" then 1 else 0);
  now = λ s. pos (21 * hour);
}

abbrev pub util : Util
util = record {
  contains_finalizer = contains;
  add_finalizer = λ f fs. fs ++ (f ∷ []);
  remove_finalizer = λ f fs. [];
  set_status_condition = λ c cs. c ∷ [];
  cancellation = "cancelled";
}

abbrev pub schedules : Store small.client.State StoredSchedule
schedules = record {
  fetch = λ name s. fetched (stored none none);
  update = λ o s. (ok o, s);
  update_status = λ o s. (none, s);
}

abbrev pub clock : Calendar
clock = record {
  Schedule = Unit {0};
  Location = Unit {0};
  parse = λ s. ok tt;
  load_location = λ s. ok tt;
  next = λ sched loc t. t +ℤ pos hour;
  ten_years_before = λ loc t. t -ℤ pos (87600 * hour);
  digest = λ s. s;
}

abbrev pub tonight : PeriodResult
tonight = record {
  state = "Down";
  next_upscale = pos (32 * hour);
  next_downscale = pos (44 * hour);
  last_upscale = pos (8 * hour);
  last_downscale = pos (20 * hour);
}

abbrev pub cache : PeriodCache
cache = ("0 8 * * *0 20 * * *UTC", record { result = tonight; valid_until = pos (32 * hour) }) ∷ []

deletion_restores_example :
    (kept : List String) × (filter_namespaces_with_local_schedules lists.local_schedules
        ("team" ∷ "web" ∷ [])
        running
      ≡ ok kept)
    × (contains kept "team" ≡ true)
    × IsDeleted small
        (databases small [])
        lists
        util
        schedules
        (stored none (some (pos 7)))
        core
        "night"
        kept
        running
        (Global.handle_deletion small
          (databases small [])
          lists
          util
          schedules
          (stored none (some (pos 7)))
          cache
          running).state
unfolding run_reconcile
deletion_restores_example =
    deletion_restores small (databases small []) lists util schedules memory_client-IsMergePatch
      (stored none (some (pos 7))) cache running ("team" ∷ "web" ∷ []) "team" refl refl refl refl

orphaned_namespaces_example :
    (orphaned : List String) × (discover_orphaned_namespaces small lists "night"
        ("team" ∷ [])
        running
      ≡ ok orphaned)
    × (contains orphaned "old" ≡ (
        not (contains ("team" ∷ []) "old")
        && (any (lies_in (λ d. d.meta) "old") (asleep_in none)
            || any (lies_in (λ t. t.meta) "old") (let none' : List Replicated = [] in none')
            || any (lies_in (λ j. j.meta) "old") (let none' : List CronJob = [] in none'))))
orphaned_namespaces_example =
    orphaned_namespaces small lists "night" ("team" ∷ []) running (asleep_in none) [] [] "old" refl
      refl refl

local_schedule_wins_example :
    (contains ("old" ∷ []) "web" ≡ false) × (contains ("team" ∷ []) "web" ≡ false)
unfolding run_reconcile
local_schedule_wins_example =
    local_schedule_wins small lists "night" ("team" ∷ "web" ∷ []) running ("old" ∷ []) ("team" ∷ [])
      "web" 0 running refl refl refl refl

reconcile-IsTimely_example :
    (p : PeriodResult) × ((period_of clock core (pos (21 * hour)) cache).0 ≡ ok p)
    × IsTimely p (pos (21 * hour)) (pos (5 * minute))
unfolding run_reconcile
reconcile-IsTimely_example =
    reconcile-IsTimely small (databases small []) lists util schedules (stored none none) clock
      cache running (pos (5 * minute)) refl
