-- ===== src/GitOps/ArgoCd.antt =====
-- internal/controller/argocd.go: the state labels on the ArgoCD Applications of a schedule.
pub mod Machine
pub mod Promises
use lightsout.Base.{
  String, Bool, true, false, ◌||◌, Option, none, some, List, [], ◌∷◌, contains, keep,
}
use lightsout.Base.{◌==◌, ◌!=◌, if◌then◌else◌, Result, ok, err}
use lightsout.Base.Dict.{lookup, get, value}
use lightsout.Base.Int.{ℤ}
use lightsout.Constants.{
  managed_by_label, state_label, state_down, state_warming_up, warming_up_since_annotation,
  default_argo_cd_namespace, default_warmup_timeout,
}
use lightsout.Json.{end}
use lightsout.Api.{ArgoCdConfig}
use lightsout.Kube.Objects.{App, deref}
use lightsout.Kube.Patch.{ObjectPatch}
use lightsout.Kube.Client.{Endpoint, apply_merge_patch}
use lightsout.Kube.Cluster.{Cluster, listed, no_match, list_failed}
use lightsout.GitOps.Marks.{
  Marked, skip, patched, has_failed, Warmed, owned_by_other, in_state, down_patch, warming_up_patch,
  release_patch, warming_up_since, has_timed_out,
}
use lightsout.GitOps.Readiness.{check_workload_readiness}

-- Whether an Application deploys into one of the namespaces.
abbrev pub is_targeted : List String → App → Bool
is_targeted targets o = elim (o.destination_namespace) [
  | none ↦ false
  | some ns ↦ contains targets ns
]

-- The labels go, and the annotation stays.
abbrev pub unlabel_patch : ObjectPatch
unlabel_patch = record {
  set_labels = [];
  set_annotations = [];
  remove_annotations = [];
  remove_labels = state_label ∷ managed_by_label ∷ [];
  spec = end;
}

module _ (c : Cluster) where
  -- `DiscoverArgoCDApps`
  unfoldable pub discover_argo_cd_apps :
      ArgoCdConfig → List String → c.client.State → Result (List App)
  discover_argo_cd_apps cfg targets s =
      let ns = if cfg.namespace == "" then default_argo_cd_namespace else cfg.namespace in
      elim (c.list_apps ns s) [
        | listed apps ↦ ok (keep (is_targeted targets) apps)
        | no_match ↦ ok []
        | list_failed e ↦ err e
      ]

  abbrev write_app : App → ObjectPatch → c.client.State → Marked c.client.State App
  write_app o p s = patched o (apply_merge_patch c.client.apps o p s)

  -- `LabelArgoCDAppDown`
  unfoldable pub label_argo_cd_app_down : App → String → c.client.State → Marked c.client.State App
  label_argo_cd_app_down o schedule_name s =
      if owned_by_other o.meta.labels schedule_name
      then skip o s
      else if in_state state_down o.meta.labels schedule_name
      then skip o s
      else write_app o (down_patch schedule_name end) s

  -- `RemoveArgoCDAppLabels`
  unfoldable pub remove_argo_cd_app_labels :
      App → String → c.client.State → Marked c.client.State App
  remove_argo_cd_app_labels o schedule_name s = elim (lookup managed_by_label o.meta.labels) [
    | none ↦ skip o s
    | some managed_by ↦
        if managed_by != schedule_name then skip o s else write_app o unlabel_patch s
  ]

  -- `LabelArgoCDAppWarmingUp`
  unfoldable pub label_argo_cd_app_warming_up :
      App → String → ℤ → c.client.State → Marked c.client.State App
  label_argo_cd_app_warming_up o schedule_name now s =
      if owned_by_other o.meta.labels schedule_name
      then skip o s
      else if in_state state_warming_up o.meta.labels schedule_name
      then skip o s
      else write_app o (warming_up_patch schedule_name (c.format_time now) end) s

  -- `CompleteArgoCDWarmup`; it never skips.
  unfoldable pub complete_argo_cd_warmup : App → c.client.State → Marked c.client.State App
  complete_argo_cd_warmup o s = write_app o (release_patch end) s

  -- Whether an Application that is warming up may be completed.
  unfoldable pub app_ready : App → Bool → c.client.State → Result Bool
  app_ready o timed_out s =
      let ns = value o.destination_namespace in
      if timed_out
      then ok true
      else if ns != ""
      then elim (check_workload_readiness c ns s) [ ok (ready, _) ↦ ok ready | err e ↦ err e ]
      else ok false

  abbrev pub completed_app : Marked c.client.State App → Warmed c.client.State App
  completed_app m = record { still = has_failed m.skipped; object = m.object; state = m.state }

  abbrev pub relabelled_app : Marked c.client.State App → Warmed c.client.State App
  relabelled_app m = record { still = true; object = m.object; state = m.state }

  -- The body of the loop of `handleArgoCDWarmup`.
  unfoldable pub warm_argo_cd_app :
      ℤ → String → ℤ → App → c.client.State → Warmed c.client.State App
  warm_argo_cd_app timeout schedule_name now o s =
      let state = get state_label o.meta.labels in
      let since = warming_up_since c.parse_time o.meta.annotations now in
      if state == state_down
      then relabelled_app (label_argo_cd_app_warming_up o schedule_name now s)
      else if state == state_warming_up
      then elim (app_ready o (has_timed_out now since timeout) s) [
        | err _ ↦ record { still = true; object = o; state = s }
        | ok true ↦ completed_app (complete_argo_cd_warmup o s)
        | ok false ↦ record { still = true; object = o; state = s }
      ]
      else record { still = false; object = o; state = s }

  unfoldable pub warm_argo_cd_apps :
      ℤ → String → ℤ → List App → Bool → c.client.State → Bool × c.client.State
  warm_argo_cd_apps timeout schedule_name now [] still s = (still, s)
  warm_argo_cd_apps timeout schedule_name now (o ∷ more) still s =
      let w = warm_argo_cd_app timeout schedule_name now o s in
      warm_argo_cd_apps timeout schedule_name now more (still || w.still) w.state

  -- `handleArgoCDWarmup`
  unfoldable pub handle_argo_cd_warmup :
      ArgoCdConfig → String → List String → ℤ → c.client.State → Bool × c.client.State
  handle_argo_cd_warmup cfg schedule_name namespaces now s =
      elim (discover_argo_cd_apps cfg namespaces s) [
        | err _ ↦ (false, s)
        | ok apps ↦
            warm_argo_cd_apps (deref cfg.warmup_timeout default_warmup_timeout) schedule_name now
              apps false s
      ]

  unfoldable pub label_each_app_down : List App → String → c.client.State → c.client.State
  label_each_app_down [] schedule_name s = s
  label_each_app_down (o ∷ more) schedule_name s =
      label_each_app_down more schedule_name (label_argo_cd_app_down o schedule_name s).state

  -- `labelArgoCDAppsDown`
  unfoldable pub label_argo_cd_apps_down :
      ArgoCdConfig → String → List String → c.client.State → c.client.State
  label_argo_cd_apps_down cfg schedule_name namespaces s =
      elim (discover_argo_cd_apps cfg namespaces s) [
        | err _ ↦ s
        | ok apps ↦ label_each_app_down apps schedule_name s
      ]
