-- ===== src/Api.antt =====
-- The specs of api/v1alpha1. Durations are in nanoseconds. A pointer, like a list or map that may
-- be nil, is an option only where the code tells nil from empty.
use lightsout.Base.{String, Bool, Option, List}
use lightsout.Base.Dict.{Dict}
use lightsout.Base.Int.{ℤ}
use lightsout.Json.{Json}
use lightsout.Kube.Cluster.{LabelSelector}
use lightsout.Workload.{WorkloadType}
use lightsout.Namespaces.{NamespaceChoice}

-- `RateLimitConfig`
pub record RateLimitConfig : Type 0 where
  pub batch_size : Option ℤ
  pub delay_between_batches : Option ℤ

-- `ArgoCDConfig`
pub record ArgoCdConfig : Type 0 where
  pub namespace : String
  pub warmup_timeout : Option ℤ
  pub sync_waves : Bool

-- `FluxCDConfig`
pub record FluxCdConfig : Type 0 where
  pub namespace : String
  pub warmup_timeout : Option ℤ

-- `FieldPatch`; the value is `none` where no byte of it was given.
pub record FieldPatch : Type 0 where
  pub path : String
  pub value : Option Json

-- `FieldMatch`
pub record FieldMatch : Type 0 where
  pub path : String
  pub value : Option Json

-- `CustomResourceConfig`
pub record CustomResourceConfig : Type 0 where
  pub group : String
  pub version : String
  pub kind : String
  pub name : String
  pub match_labels : Dict String
  pub set_fields : List FieldPatch
  pub ready_when : List FieldMatch
  pub delete : Bool

-- `LightsOutScheduleCore`
pub record ScheduleCore : Type 0 where
  pub upscale : String
  pub downscale : String
  pub timezone : String
  pub suspend : Bool
  pub workload_types : List WorkloadType
  pub exclude_labels : Option LabelSelector
  pub include_owned_workloads : Bool
  pub upscale_rate_limit : Option RateLimitConfig
  pub downscale_rate_limit : Option RateLimitConfig
  pub argo_cd : Option ArgoCdConfig
  pub flux_cd : Option FluxCdConfig
  pub custom_resources : List CustomResourceConfig
  pub custom_resource_warmup_timeout : Option ℤ

-- `LightsOutSchedule`: its name and spec, of which `choice` selects the namespaces.
pub record Schedule : Type 0 where
  pub name : String
  pub core : ScheduleCore
  pub choice : NamespaceChoice

-- `LightsOutNamespaceSchedule`
pub record NamespaceSchedule : Type 0 where
  pub name : String
  pub namespace : String
  pub core : ScheduleCore
