-- ===== src/GitOps/FluxCd.antt =====
-- internal/controller/fluxcd.go: suspending the Kustomizations and HelmReleases of a schedule.
pub mod Discover
pub mod Machine
pub mod Promises
use lightsout.Base.{String, Bool, true, false, not, ◌&&◌, ◌||◌, Option, none, some, List, [], ◌∷◌}
use lightsout.Base.{◌==◌, ◌!=◌, if◌then◌else◌, Result, ok, err}
use lightsout.Base.Dict.{lookup, get}
use lightsout.Base.Int.{ℤ}
use lightsout.Constants.{
  managed_by_label, state_label, state_down, state_warming_up, default_warmup_timeout,
}
use lightsout.Json.{bool, end, member}
use lightsout.Kube.Objects.{FluxResource, deref}
use lightsout.Kube.Patch.{ObjectPatch}
use lightsout.Kube.Client.{apply_merge_patch}
use lightsout.Kube.Cluster.{Cluster}
use lightsout.GitOps.Marks.{
  Marked, skip, patched, has_failed, Warmed, owned_by_other, in_state, down_patch, warming_up_patch,
  release_patch, warming_up_since, has_timed_out,
}
use lightsout.GitOps.Readiness.{check_workload_readiness}
use lightsout.Api.{FluxCdConfig}
use Discover.{discover_flux_resources}

-- `suspended, _, _ := unstructured.NestedBool(obj.Object, "spec", "suspend")`
abbrev pub is_suspended : FluxResource → Bool
is_suspended o = deref o.suspend false

-- The namespace whose workloads a resource deploys.
abbrev pub readiness_namespace : FluxResource → String
readiness_namespace o = if o.target_namespace == "" then o.meta.namespace else o.target_namespace

abbrev pub suspend_patch : String → ObjectPatch
suspend_patch schedule_name = down_patch schedule_name (member "suspend" (bool true) end)

abbrev pub resume_patch : ObjectPatch
resume_patch = release_patch (member "suspend" (bool false) end)

module _ (c : Cluster) where
  abbrev write_flux :
      FluxResource → ObjectPatch → c.client.State → Marked c.client.State FluxResource
  write_flux o p s = patched o (apply_merge_patch c.client.flux o p s)

  -- `SuspendFluxResource`
  unfoldable pub suspend_flux_resource :
      FluxResource → String → c.client.State → Marked c.client.State FluxResource
  suspend_flux_resource o schedule_name s =
      if owned_by_other o.meta.labels schedule_name
      then skip o s
      else if is_suspended o && get managed_by_label o.meta.labels == ""
      then skip o s
      else if is_suspended o && in_state state_down o.meta.labels schedule_name
      then skip o s
      else write_flux o (suspend_patch schedule_name) s

  -- `TransitionFluxResourceToWarmingUp`
  unfoldable pub transition_flux_resource_to_warming_up :
      FluxResource → String → ℤ → c.client.State → Marked c.client.State FluxResource
  transition_flux_resource_to_warming_up o schedule_name now s =
      if owned_by_other o.meta.labels schedule_name
      then skip o s
      else if in_state state_warming_up o.meta.labels schedule_name
      then skip o s
      else write_flux o (warming_up_patch schedule_name (c.format_time now) end) s

  -- `CompleteFluxWarmup`; it never skips.
  unfoldable pub complete_flux_warmup :
      FluxResource → c.client.State → Marked c.client.State FluxResource
  complete_flux_warmup o s = write_flux o resume_patch s

  -- `ResumeFluxResource`
  unfoldable pub resume_flux_resource :
      FluxResource → String → c.client.State → Marked c.client.State FluxResource
  resume_flux_resource o schedule_name s = elim (lookup managed_by_label o.meta.labels) [
    | none ↦ skip o s
    | some managed_by ↦
        if managed_by != schedule_name then skip o s else write_flux o resume_patch s
  ]

  -- Whether a resource that is warming up may be resumed.
  unfoldable pub flux_ready : FluxResource → Bool → c.client.State → Result Bool
  flux_ready o timed_out s =
      if timed_out then ok true else elim (check_workload_readiness c (readiness_namespace o) s) [
        | ok (ready, _) ↦ ok ready
        | err e ↦ err e
      ]

  abbrev pub resumed_flux : Marked c.client.State FluxResource → Warmed c.client.State FluxResource
  resumed_flux m = record { still = has_failed m.skipped; object = m.object; state = m.state }

  abbrev pub moved_flux : Marked c.client.State FluxResource → Warmed c.client.State FluxResource
  moved_flux m = record { still = true; object = m.object; state = m.state }

  -- The body of the loop of `handleFluxCDWarmup`. A resource in an unknown state warms up anew.
  unfoldable pub warm_flux_resource :
      ℤ → String → ℤ → FluxResource → c.client.State → Warmed c.client.State FluxResource
  warm_flux_resource timeout schedule_name now o s =
      let state = get state_label o.meta.labels in
      let since = warming_up_since c.parse_time o.meta.annotations now in
      if get managed_by_label o.meta.labels != schedule_name
      then record { still = false; object = o; state = s }
      else if state == state_down
      then moved_flux (transition_flux_resource_to_warming_up o schedule_name now s)
      else if state == state_warming_up
      then elim (flux_ready o (has_timed_out now since timeout) s) [
        | err _ ↦ record { still = true; object = o; state = s }
        | ok true ↦ resumed_flux (complete_flux_warmup o s)
        | ok false ↦ record { still = true; object = o; state = s }
      ]
      else moved_flux (transition_flux_resource_to_warming_up o schedule_name now s)

  unfoldable pub warm_flux_resources :
      ℤ → String → ℤ → List FluxResource → Bool → c.client.State → Bool × c.client.State
  warm_flux_resources timeout schedule_name now [] still s = (still, s)
  warm_flux_resources timeout schedule_name now (o ∷ more) still s =
      let w = warm_flux_resource timeout schedule_name now o s in
      warm_flux_resources timeout schedule_name now more (still || w.still) w.state

  -- `handleFluxCDWarmup`
  unfoldable pub handle_flux_cd_warmup :
      FluxCdConfig → String → List String → ℤ → c.client.State → Bool × c.client.State
  handle_flux_cd_warmup cfg schedule_name namespaces now s =
      elim (discover_flux_resources c cfg namespaces s) [
        | err _ ↦ (false, s)
        | ok resources ↦
            warm_flux_resources (deref cfg.warmup_timeout default_warmup_timeout) schedule_name now
              resources false s
      ]

  unfoldable pub suspend_each : List FluxResource → String → c.client.State → c.client.State
  suspend_each [] schedule_name s = s
  suspend_each (o ∷ more) schedule_name s =
      suspend_each more schedule_name (suspend_flux_resource o schedule_name s).state

  -- `labelFluxResourcesDown`
  unfoldable pub label_flux_resources_down :
      FluxCdConfig → String → List String → c.client.State → c.client.State
  label_flux_resources_down cfg schedule_name namespaces s =
      elim (discover_flux_resources c cfg namespaces s) [
        | err _ ↦ s
        | ok resources ↦ suspend_each resources schedule_name s
      ]
