-- ===== src/Tests/GitOps.antt =====
-- The GitOps controllers on the in-memory server.
use lightsout.Base.{
  ℕ, ◌*◌, String, ◌≡◌, refl, true, false, none, some, List, [], ◌∷◌, all, contains, arith, ok, inl,
  inr, Bool-cases, String-discrete, if◌then◌else◌, All, ◌==◌,
}
use lightsout.Base.Dict.{Dict, lookup, get, insert, erase}
use lightsout.Base.Int.{ℤ, pos, ◌-ℤ◌, ◌+ℤ◌}
use lightsout.Constants.{
  managed_by_label, state_label, state_down, state_warming_up, warming_up_since_annotation, second,
  default_warmup_timeout,
}
use lightsout.Json.{get_member, set_member, dig}
use lightsout.Kube.Objects.{ObjectMeta, Replicated, App, FluxResource}
use lightsout.Kube.Patch.{build}
use lightsout.Kube.Client.{apply_merge_patch}
use lightsout.Kube.Cluster.{
  Cluster, Listing, IsClock, FluxKind, kustomization, helm_release, listed, no_match,
}
use lightsout.Kube.Memory.{memory_client, memory_client-IsMergePatch, running}
use lightsout.Api.{FluxCdConfig}
use lightsout.GitOps.Readiness.{
  scan, pod_counts_for_readiness, ready_condition, check_pods, check_stateful_sets,
  check_workload_readiness,
}
use lightsout.GitOps.Readiness.Laws.{readiness_judged}
use lightsout.GitOps.Marks.Answers.{Accepts}
use lightsout.GitOps.Marks.{Warmed, owned_by_other, in_state, recorded_start, warming_up_since}
use lightsout.GitOps.Marks.Phases.{IsUnmarked, free, held, warming, phase_of}
use lightsout.GitOps.ArgoCd.{
  label_argo_cd_app_down, label_argo_cd_app_warming_up, complete_argo_cd_warmup, app_ready,
  warm_argo_cd_app, warm_argo_cd_apps, discover_argo_cd_apps, handle_argo_cd_warmup,
}
use lightsout.GitOps.ArgoCd.Promises.{app_refines}
use lightsout.GitOps.FluxCd.Discover.{
  resource_key, add_new, add_items, search_namespaces, search_kind, discover_flux_resources,
}
use lightsout.GitOps.FluxCd.Discover.Kept.{deployment_namespace}
use lightsout.GitOps.FluxCd.Discover.Laws.{discovered_in_targets}
use lightsout.GitOps.FluxCd.{
  suspend_flux_resource, transition_flux_resource_to_warming_up, complete_flux_warmup, flux_ready,
  warm_flux_resource, warm_flux_resources, handle_flux_cd_warmup,
}
use lightsout.GitOps.FluxCd.Machine.{flux_refines}
use lightsout.GitOps.FluxCd.Promises.{suspend_refines, flux_warmup_ends}
use lightsout.Tests.Clock.{write_time, read_time, strokes, count_strokes, timed-IsClock}

-- One name for all that a run of the integrations computes through.
run_gitops : Unit {0}
unfolding apply_merge_patch build memory_client running dig get_member set_member get lookup insert
    erase String-discrete scan pod_counts_for_readiness ready_condition check_pods
    check_stateful_sets check_workload_readiness owned_by_other in_state recorded_start
    warming_up_since phase_of label_argo_cd_app_down label_argo_cd_app_warming_up
    complete_argo_cd_warmup app_ready warm_argo_cd_app warm_argo_cd_apps discover_argo_cd_apps
    handle_argo_cd_warmup resource_key add_new add_items search_namespaces search_kind
    discover_flux_resources suspend_flux_resource transition_flux_resource_to_warming_up
    complete_flux_warmup flux_ready warm_flux_resource warm_flux_resources handle_flux_cd_warmup
    write_time read_time strokes count_strokes ◌-ℤ◌ ◌+ℤ◌
run_gitops = tt

abbrev object : String → String → Dict String → Dict String → ObjectMeta
object ns name labels annotations = record {
  name = name;
  namespace = ns;
  labels = labels;
  annotations = annotations;
  owner_references = [];
  generation = pos 1;
}

abbrev release : String → String → Dict String → Dict String → FluxResource
release ns target labels annotations = record {
  meta = object ns "web" labels annotations;
  target_namespace = target;
  suspend = some true;
}

abbrev app : Dict String → App
app labels = record { meta = object "argocd" "web" labels []; destination_namespace = some "team" }

-- A Deployment that has none of its two replicas.
abbrev starting : Replicated
starting = record {
  meta = object "team" "web" [] [];
  replicas = some (pos 2);
  observed_generation = pos 1;
  status_replicas = pos 2;
  ready_replicas = pos 0;
}

abbrev fresh : FluxResource
fresh = release "flux-system" "team" [] []

abbrev colocated : FluxResource
colocated = release "team" "" [] []

-- The Kustomizations and HelmReleases of a cluster where both kinds have one of the same name.
abbrev pub flux_cluster : Cluster
flux_cluster = record {
  client = memory_client;
  list_deployments = λ ns s. ok (starting ∷ []);
  list_stateful_sets = λ ns s. ok [];
  list_cron_jobs = λ ns s. ok [];
  hpa_listing = λ ns s. no_match;
  list_pods = λ ns s. ok [];
  list_apps = λ ns s. listed (app [] ∷ []);
  list_flux = λ kind ns s. elim ns [
    | none ↦ listed (fresh ∷ [])
    | some n ↦ listed (if n == "team" then colocated ∷ [] else [])
  ];
  format_time = write_time;
  parse_time = read_time;
  matches = λ selector labels. ok false;
  cancelled = λ s. false;
}

abbrev seconds : ℕ → ℤ
seconds n = pos (n * second)

abbrev held_labels : Dict String
held_labels = (state_label, state_down) ∷ (managed_by_label, "night") ∷ []

abbrev sleeping : FluxResource
sleeping = release "flux-system" "team" held_labels []

-- The in-memory server accepts every patch.
Accepts-flux : (o : FluxResource) → Accepts flux_cluster.client.flux o running
unfolding run_gitops
Accepts-flux o p = (_, _, refl)

Accepts-app : (o : App) → Accepts flux_cluster.client.apps o running
unfolding run_gitops
Accepts-app o p = (_, _, refl)

clock : IsClock flux_cluster
clock = timed-IsClock flux_cluster (λ t. refl)

abbrev warm_at : ℕ → FluxResource → Warmed memory_client.State FluxResource
warm_at t o = warm_flux_resource flux_cluster default_warmup_timeout "night" (seconds t) o running

flux_refines_example :
    let w = warm_at 100 sleeping in
    (phase_of read_time "night" w.object.meta ≡ warming (some (seconds 100)))
    × (w.object.suspend ≡ some true)
    × (w.still ≡ true)
unfolding run_gitops
flux_refines_example =
    flux_refines flux_cluster memory_client-IsMergePatch "night" sleeping running refl
      (Accepts-flux sleeping) default_warmup_timeout (seconds 100) (seconds 100) refl refl

abbrev waking : FluxResource
waking = (warm_at 100 sleeping).object

-- Before the timeout the Deployment that is not ready keeps it suspended.
waking_waits :
    ((warm_at 200 waking).still ≡ true) × ((warm_at 200 waking).object.suspend ≡ some true)
unfolding run_gitops
waking_waits = (refl, refl)

flux_warmup_ends_example :
    let w = warm_at 700 waking in
    (phase_of read_time "night" w.object.meta ≡ free)
    × (w.object.suspend ≡ some false)
    × (w.still ≡ false)
    × IsUnmarked w.object.meta
unfolding run_gitops
flux_warmup_ends_example =
    flux_warmup_ends flux_cluster memory_client-IsMergePatch "night" sleeping running refl
      (Accepts-flux sleeping) clock default_warmup_timeout (seconds 100) (seconds 700) waking
      running refl (Accepts-flux waking) refl refl refl (omega arith)

abbrev active : FluxResource
active = record sleeping { meta = object "flux-system" "web" [] []; suspend = some false }

suspend_refines_example :
    let m = suspend_flux_resource flux_cluster active "night" running in
    (phase_of read_time "night" m.object.meta ≡ held) × (m.object.suspend ≡ some true)
unfolding run_gitops
suspend_refines_example =
    suspend_refines flux_cluster memory_client-IsMergePatch "night" active running refl
      (Accepts-flux active) refl

abbrev night_app : App
night_app = app held_labels

app_refines_example :
    let w =
      warm_argo_cd_app flux_cluster default_warmup_timeout "night"
        (seconds 100)
        night_app
        running in
    (phase_of read_time "night" w.object.meta ≡ warming (some (seconds 100))) × (w.still ≡ true)
unfolding run_gitops
app_refines_example =
    app_refines flux_cluster memory_client-IsMergePatch "night" night_app running refl
      (Accepts-app night_app) default_warmup_timeout (seconds 100) (seconds 100) refl refl

-- An Application that the schedule "weekend" warms up since a time long past.
abbrev their_app : App
their_app = record night_app {
  meta =
      object "argocd" "web" ((state_label, state_warming_up) ∷ (managed_by_label, "weekend") ∷ [])
        ((warming_up_since_annotation, write_time (seconds 0)) ∷ []);
}

abbrev flux_cfg : FluxCdConfig
flux_cfg = record { namespace = ""; warmup_timeout = none }

-- The Kustomization and the HelmRelease "web" of "flux-system" share one key: one is found.
discovery_runs :
    discover_flux_resources flux_cluster flux_cfg ("team" ∷ []) running
    ≡ ok (fresh ∷ colocated ∷ [])
unfolding run_gitops
discovery_runs = refl

listed-injective :
    {A : Type 0} (xs ys : List A) → ◌≡◌ {A = Listing A} (listed xs) (listed ys) → xs ≡ ys
listed-injective xs ys h = cc

lists_locally :
    (kind : FluxKind) (ns : String) (items : List FluxResource)
    → flux_cluster.list_flux kind (some ns) running ≡ listed items
    → All (λ o. o.meta.namespace ≡ ns) items
lists_locally kind ns items h = elim (Bool-cases (ns == "team")) [
  | inl team ↦
      let named : ns ≡ "team" = ground arith in
      let found : colocated ∷ [] ≡ items = listed-injective _ _ (rw team at h) in
      rw (← found, named) (refl, tt)
  | inr other ↦ let found : [] ≡ items = listed-injective _ _ (rw other at h) in rw (← found) tt
]

discovered_in_targets_example :
    all (λ o. contains ("team" ∷ []) (deployment_namespace o)) (fresh ∷ colocated ∷ []) ≡ true
discovered_in_targets_example =
    discovered_in_targets flux_cluster flux_cfg ("team" ∷ []) running (fresh ∷ colocated ∷ [])
      lists_locally discovery_runs

-- The same cluster without HelmReleases.
abbrev no_helm : Cluster
no_helm = record flux_cluster {
  list_flux =
      λ kind ns s. elim kind [ kustomization ↦ listed (fresh ∷ []) | helm_release ↦ no_match ];
}

readiness_judged_example : check_workload_readiness flux_cluster "team" running ≡ ok (false, true)
unfolding run_gitops
readiness_judged_example =
    readiness_judged flux_cluster "team" running (starting ∷ []) [] [] refl refl refl
