-- ===== src/Collect.antt =====
-- `collectWorkloads` of internal/controller/batcher.go: the workloads of the namespaces that pass
-- the type and label filters, claimed for a namespace schedule where asked.
pub mod Laws
use lightsout.Base.{String, Bool, true, false, not, ◌&&◌, ◌||◌, Option, List, [], ◌∷◌, ◌++◌}
use lightsout.Base.{◌!=◌, if◌then◌else◌, any, Result, ok, err}
use lightsout.Base.Dict.{Dict, get}
use lightsout.Constants.{managed_by_annotation, managed_by_label}
use lightsout.Json.{end}
use lightsout.Kube.Objects.{ObjectMeta, Replicated, CronJob}
use lightsout.Kube.Patch.{ObjectPatch}
use lightsout.Kube.Client.{Endpoint, apply_merge_patch}
use lightsout.Kube.Cluster.{LabelSelector, Cluster, should_exclude_workload}
use lightsout.Workload.{
  WorkloadType, deployment, stateful_set, cron_job, Workload, of_deployment, of_stateful_set,
  of_cron_job, has_controller_owner,
}

-- The fields of `LightsOutScheduleCore` that the collection reads.
pub record Filters : Type 0 where
  pub workload_types : List WorkloadType
  pub exclude_labels : Option LabelSelector
  pub include_owned_workloads : Bool

abbrev pub same_type : WorkloadType → WorkloadType → Bool
same_type deployment deployment = true
same_type stateful_set stateful_set = true
same_type cron_job cron_job = true
same_type _ _ = false

-- `shouldProcessWorkloadType`
unfoldable pub should_process_workload_type : List WorkloadType → WorkloadType → Bool
should_process_workload_type [] target = true
should_process_workload_type (t ∷ ts) target = any (same_type target) (t ∷ ts)

-- The patch that claims a workload of another schedule.
abbrev pub transfer_patch : String → ObjectPatch
transfer_patch schedule_name = record {
  set_labels = (managed_by_label, schedule_name) ∷ [];
  set_annotations = (managed_by_annotation, schedule_name) ∷ [];
  remove_annotations = [];
  remove_labels = [];
  spec = end;
}

abbrev pub needs_transfer : Bool → ObjectMeta → String → Bool
needs_transfer transfer m schedule_name =
    transfer
    && get managed_by_label m.labels != ""
    && get managed_by_label m.labels != schedule_name

module _ (c : Cluster) (filters : Filters) (schedule_name : String) (transfer : Bool) where
  -- A workload whose labels match, or cannot be checked, is passed over.
  pub is_passed_over : ObjectMeta → Bool
  is_passed_over m =
      let answer = should_exclude_workload c m.labels filters.exclude_labels in
      (elim answer [ err e ↦ true | ok b ↦ b ])
      || (not filters.include_owned_workloads && has_controller_owner m.owner_references)

  -- The loop that `collectNamespaceDeployments`, `collectNamespaceStatefulSets` and
  -- `collectNamespaceCronJobs` share, over the items of their list.
  unfoldable pub collect_items :
      {Obj : Type 0}
      → (Obj → ObjectMeta)
      → (Obj → Workload)
      → Endpoint c.client.State Obj
      → List Obj
      → c.client.State
      → List Workload × c.client.State
  collect_items meta_of wrap e [] s = ([], s)
  collect_items meta_of wrap e (o ∷ os) s =
      let same = collect_items meta_of wrap e os s in
      let (answer, s') = apply_merge_patch e o (transfer_patch schedule_name) s in
      let later = collect_items meta_of wrap e os s' in
      if is_passed_over (meta_of o)
      then same
      else if needs_transfer transfer (meta_of o) schedule_name
      then elim answer [ err _ ↦ later | ok o' ↦ (wrap o' ∷ later.0, later.1) ]
      else (wrap o ∷ same.0, same.1)

  abbrev Collected : Type 0
  Collected = Result (List Workload) × c.client.State

  -- One of the three collections, and what was collected before it.
  stage :
      {Obj : Type 0}
      → WorkloadType
      → (Obj → ObjectMeta)
      → (Obj → Workload)
      → Endpoint c.client.State Obj
      → (String → c.client.State → Result (List Obj))
      → String
      → Collected
      → Collected
  stage t meta_of wrap e list ns (err x, s) = (err x, s)
  stage t meta_of wrap e list ns (ok ws, s) =
      let found = list ns s in
      if should_process_workload_type filters.workload_types t
      then elim found [
        | err x ↦ (err x, s)
        | ok os ↦ let (more, s') = collect_items meta_of wrap e os s in (ok (ws ++ more), s')
      ]
      else (ok ws, s)

  -- The three collections of a namespace, in the order of the source.
  collect_namespace : String → Collected → Collected
  unfolding stage
  collect_namespace ns r =
      stage cron_job (λ j. j.meta) of_cron_job c.client.cron_jobs c.list_cron_jobs ns
        (stage stateful_set (λ d. d.meta) of_stateful_set c.client.replicated c.list_stateful_sets
          ns
          (stage deployment (λ d. d.meta) of_deployment c.client.replicated c.list_deployments ns
            r))

  collect_from : List String → Collected → Collected
  collect_from [] r = r
  collect_from (ns ∷ more) r = collect_from more (collect_namespace ns r)

  -- `collectWorkloads`
  unfoldable pub collect_workloads : List String → c.client.State → Collected
  unfolding collect_from collect_namespace collect_items is_passed_over
  collect_workloads namespaces s = collect_from namespaces (ok [], s)
