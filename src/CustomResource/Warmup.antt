-- ===== src/CustomResource/Warmup.antt =====
-- `handleCustomResourceWarmup` of internal/controller/customresource.go.
use lightsout.Base.{String, Bool, true, false, not, ◌&&◌, ◌||◌, Option, none, some, List, [], ◌∷◌}
use lightsout.Base.{◌!=◌, if◌then◌else◌, Result, ok, err}
use lightsout.Base.Dict.{Dict, lookup, get, insert}
use lightsout.Base.Int.{ℤ}
use lightsout.Constants.{managed_by_label, state_label, state_warming_up, default_warmup_timeout}
use lightsout.Json.{Json}
use lightsout.Api.{CustomResourceConfig, ScheduleCore}
use lightsout.Kube.Objects.{deref}
use lightsout.Kube.Cluster.{Cluster}
use lightsout.GitOps.Marks.{Marked, has_failed, warming_up_since, has_timed_out}
use lightsout.GitOps.Readiness.{check_workload_readiness}
use lightsout.CustomResource.Access.{Resources, discover_custom_resources}
use lightsout.CustomResource.Fields.{clear_custom_resource_state}
use lightsout.CustomResource.Ready.{custom_resource_ready}

module _ (c : Cluster) (r : Resources c) where
  -- What one resource leaves: whether something is still warming up, the readiness of the
  -- namespaces that were checked, the object and the state.
  pub record Pass : Type 0 where
    pub still : Bool
    pub readiness : Dict Bool
    pub object : Json
    pub state : c.client.State

  -- The readiness of a namespace, checked once; a namespace without workloads is not ready.
  unfoldable pub namespace_ready : String → Dict Bool → c.client.State → Result (Bool × Dict Bool)
  namespace_ready ns readiness s = elim (lookup ns readiness) [
    | some ready ↦ ok (ready, readiness)
    | none ↦ elim (check_workload_readiness c ns s) [
      | err e ↦ err e
      | ok (ready, observed) ↦ ok (ready && observed, insert ns (ready && observed) readiness)
    ]
  ]

  -- The namespace and the operator both have to agree, where the operator says something.
  abbrev pub agreed : Bool → Option Bool → Bool
  agreed ns_ready none = ns_ready
  agreed ns_ready (some ready) = ns_ready && ready

  abbrev pub finished : Dict Bool → Marked c.client.State Json → Pass
  finished readiness m = record {
    still = has_failed m.skipped;
    readiness = readiness;
    object = m.object;
    state = m.state;
  }

  abbrev pub waiting : Bool → Dict Bool → Json → c.client.State → Pass
  waiting still readiness o s = record {
    still = still;
    readiness = readiness;
    object = o;
    state = s;
  }

  -- The body of the inner loop.
  unfoldable pub warm_custom_resource :
      ℤ → String → ℤ → CustomResourceConfig → Json → Dict Bool → c.client.State → Pass
  warm_custom_resource timeout schedule_name now cfg o readiness s =
      let m = r.meta_of o in
      let timed_out = has_timed_out now (warming_up_since c.parse_time m.annotations now) timeout in
      if get managed_by_label m.labels != schedule_name
      then waiting false readiness o s
      else if get state_label m.labels != state_warming_up
      then waiting false readiness o s
      else elim (namespace_ready m.namespace readiness s) [
        | err e ↦ waiting true readiness o s
        | ok (ns_ready, readiness') ↦
            if not (agreed ns_ready (custom_resource_ready c r o cfg)) && not timed_out
            then waiting true readiness' o s
            else finished readiness' (clear_custom_resource_state c r o s)
      ]

  unfoldable pub warm_resources :
      ℤ
      → String
      → ℤ
      → CustomResourceConfig
      → List Json
      → Bool
      → Dict Bool
      → c.client.State
      → Bool × Dict Bool × c.client.State
  warm_resources timeout schedule_name now cfg [] still readiness s = (still, readiness, s)
  warm_resources timeout schedule_name now cfg (o ∷ more) still readiness s =
      let p = warm_custom_resource timeout schedule_name now cfg o readiness s in
      warm_resources timeout schedule_name now cfg more (still || p.still) p.readiness p.state

  -- The loop over the entries: one that deletes, or whose resources cannot be listed, is passed over.
  unfoldable pub warm_entries :
      ℤ
      → String
      → List String
      → ℤ
      → List CustomResourceConfig
      → Bool
      → Dict Bool
      → c.client.State
      → Bool × c.client.State
  warm_entries timeout schedule_name namespaces now [] still readiness s = (still, s)
  warm_entries timeout schedule_name namespaces now (cfg ∷ more) still readiness s =
      elim (cfg.delete) [
        | true ↦ warm_entries timeout schedule_name namespaces now more still readiness s
        | false ↦ elim (discover_custom_resources c r cfg namespaces s) [
          | err e ↦ warm_entries timeout schedule_name namespaces now more still readiness s
          | ok resources ↦
              let (still', readiness', s') =
                warm_resources timeout schedule_name now cfg resources still readiness s in
              warm_entries timeout schedule_name namespaces now more still' readiness' s'
        ]
      ]

  -- `handleCustomResourceWarmup`
  unfoldable pub handle_custom_resource_warmup :
      ScheduleCore → String → List String → ℤ → c.client.State → Bool × c.client.State
  handle_custom_resource_warmup core schedule_name namespaces now s =
      warm_entries (deref core.custom_resource_warmup_timeout default_warmup_timeout) schedule_name
        namespaces now core.custom_resources false [] s
