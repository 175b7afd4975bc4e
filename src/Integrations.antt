-- ===== src/Integrations.antt =====
-- internal/controller/integrations.go: the order in which the integrations run around the scaling of
-- the workloads. `warmupMayStart` is in Requeue.
use lightsout.Base.{String, Bool, true, false, ◌||◌, none, some, List}
use lightsout.Base.{if◌then◌else◌}
use lightsout.Base.Int.{ℤ}
use lightsout.Api.{ScheduleCore}
use lightsout.Kube.Cluster.{Cluster}
use lightsout.GitOps.ArgoCd.{label_argo_cd_apps_down, handle_argo_cd_warmup}
use lightsout.GitOps.FluxCd.{label_flux_resources_down, handle_flux_cd_warmup}
use lightsout.CustomResource.{custom_resources_down, custom_resources_up}
use lightsout.CustomResource.Access.{Resources}
use lightsout.CustomResource.Warmup.{handle_custom_resource_warmup}
use lightsout.Webhook.Fields.{is_empty}

-- `integrationConfig`, without what is used for events and metrics alone.
pub record IntegrationConfig : Type 0 where
  pub core : ScheduleCore
  pub schedule_name : String
  pub namespaces : List String

module _ (c : Cluster) (r : Resources c) (cfg : IntegrationConfig) where
  -- `integrationsDown`
  unfoldable pub integrations_down : c.client.State → c.client.State
  integrations_down s =
      let s1 : c.client.State = elim (cfg.core.argo_cd) [
        | none ↦ s
        | some a ↦ label_argo_cd_apps_down c a cfg.schedule_name cfg.namespaces s
      ] in
      let s2 : c.client.State = elim (cfg.core.flux_cd) [
        | none ↦ s1
        | some f ↦ label_flux_resources_down c f cfg.schedule_name cfg.namespaces s1
      ] in
      if is_empty cfg.core.custom_resources
      then s2
      else custom_resources_down c r cfg.core.custom_resources cfg.schedule_name cfg.namespaces s2

  -- `integrationsUp`: whether the scaler must wait another cycle.
  unfoldable pub integrations_up : ℤ → c.client.State → Bool × c.client.State
  integrations_up now s =
      let (restored, s1) =
        custom_resources_up c r cfg.core.custom_resources cfg.schedule_name cfg.namespaces now false
          s in
      let warming =
        handle_custom_resource_warmup c r cfg.core cfg.schedule_name cfg.namespaces now s1 in
      if is_empty cfg.core.custom_resources
      then (false, s)
      else if restored
      then (true, s1)
      else warming

  -- `integrationsWarmup`: whether either integration is still waiting.
  unfoldable pub integrations_warmup : ℤ → c.client.State → Bool × c.client.State
  integrations_warmup now s =
      let (argo, s1) : Bool × c.client.State = elim (cfg.core.argo_cd) [
        | none ↦ (false, s)
        | some a ↦ handle_argo_cd_warmup c a cfg.schedule_name cfg.namespaces now s
      ] in
      let (flux, s2) : Bool × c.client.State = elim (cfg.core.flux_cd) [
        | none ↦ (false, s1)
        | some f ↦ handle_flux_cd_warmup c f cfg.schedule_name cfg.namespaces now s1
      ] in
      (argo || flux, s2)
