-- ===== src/Reconciler/Restore.antt =====
-- `restoreManagedWorkloads` of internal/controller/lightsoutschedule_controller.go: everything that
-- a schedule owns in some namespaces goes back to what it was. It serves the deletion of a schedule
-- and the release of namespaces that left it.
pub mod Clean
pub mod Nothing
use lightsout.Base.{String, Bool, true, false, Option, none, some, List, [], ◌∷◌, ◌++◌}
use lightsout.Base.{Result, ok, err, if◌then◌else◌}
use lightsout.Base.Int.{ℤ}
use lightsout.Api.{ScheduleCore}
use lightsout.Kube.Objects.{Replicated, CronJob, HpaList, App, FluxResource}
use lightsout.Kube.Cluster.{Cluster, list_hpas}
use lightsout.Scaler.Outcome.{ScaleResult, Outcome}
use lightsout.Scaler.Replicas.{scale_deployment, scale_stateful_set}
use lightsout.Scaler.CronJobs.{scale_cron_job}
use lightsout.GitOps.ArgoCd.{discover_argo_cd_apps, remove_argo_cd_app_labels}
use lightsout.GitOps.FluxCd.{resume_flux_resource}
use lightsout.GitOps.FluxCd.Discover.{discover_flux_resources}
use lightsout.CustomResource.{restore_all_custom_resources}
use lightsout.CustomResource.Access.{Resources}
use lightsout.Webhook.Fields.{is_empty}
use lightsout.Reconciler.Server.{Lists}

-- The variables of a namespace's loops: the errors, the HPA list that the scaler patches in place,
-- and the cluster's state.
pub record Restoring (S : Type 0) : Type 0 where
  pub errors : List String
  pub hpas : HpaList
  pub state : S

abbrev pub errors_of {ℓ} : {A : Type ℓ} → Result A → List String
errors_of (ok a) = []
errors_of (err e) = e ∷ []

-- One of the three loops over the workloads of a list.
unfoldable pub restore_items :
    {S Obj : Type 0} → (Obj → HpaList → S → Outcome S Obj) → List Obj → HpaList → S → Restoring S
restore_items scale [] hpas s = record { errors = []; hpas = hpas; state = s }
restore_items scale (o ∷ os) hpas s =
    let a = scale o hpas s in
    let rest = restore_items scale os a.hpas a.state in
    record { errors = errors_of a.result ++ rest.errors; hpas = rest.hpas; state = rest.state }

-- A list and its loop; a list that fails is an error of its own.
unfoldable pub restore_listed :
    {S Obj : Type 0}
    → (Obj → HpaList → S → Outcome S Obj)
    → Result (List Obj)
    → HpaList
    → S
    → Restoring S
restore_listed scale (err e) hpas s = record { errors = e ∷ []; hpas = hpas; state = s }
restore_listed scale (ok os) hpas s = restore_items scale os hpas s

module _ {c : Cluster} (l : Lists c) (ns schedule_name : String) where
  -- `listManagedDeployments`
  abbrev pub list_managed_deployments : c.client.State → Result (List Replicated)
  list_managed_deployments s = l.deployments (some ns) schedule_name s

  -- `listManagedStatefulSets`
  abbrev pub list_managed_stateful_sets : c.client.State → Result (List Replicated)
  list_managed_stateful_sets s = l.stateful_sets (some ns) schedule_name s

  -- `listManagedCronJobs`
  abbrev pub list_managed_cron_jobs : c.client.State → Result (List CronJob)
  list_managed_cron_jobs s = l.cron_jobs (some ns) schedule_name s

module _ (c : Cluster) (r : Resources c) (l : Lists c) (core : ScheduleCore)
    (schedule_name : String) where
  -- The loops of the source call the scalers upwards; that of CronJobs knows no HPAs.
  abbrev pub deployment_up :
      Replicated → HpaList → c.client.State → Outcome c.client.State Replicated
  deployment_up o = scale_deployment c.client o schedule_name true

  abbrev pub stateful_set_up :
      Replicated → HpaList → c.client.State → Outcome c.client.State Replicated
  stateful_set_up o = scale_stateful_set c.client o schedule_name true

  abbrev pub cron_job_up : CronJob → HpaList → c.client.State → Outcome c.client.State CronJob
  cron_job_up o hpas s = record (scale_cron_job c.client o schedule_name true s) { hpas = hpas }

  -- The HPA list of a namespace, nil where it failed.
  abbrev pub hpas_in : String → c.client.State → HpaList
  hpas_in ns s = elim (list_hpas c ns s) [ err e ↦ none | ok hpas ↦ hpas ]

  -- The body of the loop over the namespaces.
  unfoldable pub restore_namespace : String → c.client.State → List String × c.client.State
  restore_namespace ns s =
      let d =
        restore_listed deployment_up (list_managed_deployments l ns schedule_name s) (hpas_in ns s)
          s in
      let t =
        restore_listed stateful_set_up (list_managed_stateful_sets l ns schedule_name d.state)
          d.hpas d.state in
      let j =
        restore_listed cron_job_up (list_managed_cron_jobs l ns schedule_name t.state) t.hpas
          t.state in
      (d.errors ++ (t.errors ++ j.errors), j.state)

  unfoldable pub restore_namespaces : List String → c.client.State → List String × c.client.State
  restore_namespaces [] s = ([], s)
  restore_namespaces (ns ∷ more) s =
      let (errors, s') = restore_namespace ns s in
      let (later, s'') = restore_namespaces more s' in (errors ++ later, s'')

  unfoldable pub unlabel_each : List App → c.client.State → c.client.State
  unlabel_each [] s = s
  unlabel_each (o ∷ more) s =
      unlabel_each more (remove_argo_cd_app_labels c o schedule_name s).state

  unfoldable pub resume_each : List FluxResource → c.client.State → c.client.State
  resume_each [] s = s
  resume_each (o ∷ more) s = resume_each more (resume_flux_resource c o schedule_name s).state

  -- The Applications and the Flux resources; their errors are logged alone.
  unfoldable pub restore_apps : List String → c.client.State → c.client.State
  restore_apps namespaces s = elim (core.argo_cd) [
    | none ↦ s
    | some a ↦ elim (discover_argo_cd_apps c a namespaces s) [
      | err e ↦ s
      | ok apps ↦ unlabel_each apps s
    ]
  ]

  unfoldable pub restore_flux : List String → c.client.State → c.client.State
  restore_flux namespaces s = elim (core.flux_cd) [
    | none ↦ s
    | some f ↦ elim (discover_flux_resources c f namespaces s) [
      | err e ↦ s
      | ok resources ↦ resume_each resources s
    ]
  ]

  -- `restoreManagedWorkloads`, at a time
  unfoldable pub restore_managed_workloads :
      List String → ℤ → c.client.State → List String × c.client.State
  restore_managed_workloads namespaces now s =
      let (errors, s1) = restore_namespaces namespaces s in
      let s2 = restore_flux namespaces (restore_apps namespaces s1) in
      let (more, s3) =
        restore_all_custom_resources c r core.custom_resources schedule_name namespaces now s2 in
      if is_empty core.custom_resources then (errors, s2) else (errors ++ more, s3)
