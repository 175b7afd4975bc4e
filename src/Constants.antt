-- ===== src/Constants.antt =====
-- The keys and values of internal/constants/annotations.go, and the times of
-- internal/constants/timing.go in nanoseconds.
use lightsout.Base.{ℕ, ◌*◌, ◌^◌, String}
use lightsout.Base.Int.{ℤ, pos}

abbrev pub original_replicas_annotation : String
original_replicas_annotation = "lightsout.techsupport.mk/original-replicas"

abbrev pub original_suspend_annotation : String
original_suspend_annotation = "lightsout.techsupport.mk/original-suspend"

abbrev pub original_hpa_scale_up_policy_annotation : String
original_hpa_scale_up_policy_annotation = "lightsout.techsupport.mk/original-hpa-scale-up-policy"

abbrev pub managed_by_annotation : String
managed_by_annotation = "lightsout.techsupport.mk/managed-by"

abbrev pub managed_by_label : String
managed_by_label = "lightsout.techsupport.mk/managed-by"

abbrev pub suspended_by_lights_out : String
suspended_by_lights_out = "lightsout"

abbrev pub suspended_by_user : String
suspended_by_user = "user"

abbrev pub state_label : String
state_label = "lightsout.techsupport.mk/state"

abbrev pub state_down : String
state_down = "down"

abbrev pub state_warming_up : String
state_warming_up = "warming-up"

abbrev pub warming_up_since_annotation : String
warming_up_since_annotation = "lightsout.techsupport.mk/warming-up-since"

abbrev pub argo_cd_sync_wave_annotation : String
argo_cd_sync_wave_annotation = "argocd.argoproj.io/sync-wave"

abbrev pub default_argo_cd_namespace : String
default_argo_cd_namespace = "argocd"

abbrev pub default_flux_cd_namespace : String
default_flux_cd_namespace = "flux-system"

abbrev pub default_timezone : String
default_timezone = "UTC"

abbrev pub finalizer_name : String
finalizer_name = "lightsout.techsupport.mk/cleanup"

abbrev pub original_fields_annotation : String
original_fields_annotation = "lightsout.techsupport.mk/original-fields"

-- Durations are in nanoseconds, as `time.Duration` is.
abbrev pub second : ℕ
second = 10 ^ 9

abbrev pub minute : ℕ
minute = 60 * second

abbrev pub hour : ℕ
hour = 60 * minute

abbrev pub warmup_check_interval : ℤ
warmup_check_interval = pos (30 * second)

abbrev pub default_warmup_timeout : ℤ
default_warmup_timeout = pos (10 * minute)

abbrev pub termination_grace_slack : ℤ
termination_grace_slack = pos (2 * minute)

abbrev pub termination_check_interval : ℤ
termination_check_interval = pos (5 * minute)

abbrev pub condition_type_ready : String
condition_type_ready = "Ready"

-- Events
abbrev pub event_reason_scaled_up : String
event_reason_scaled_up = "ScaledUp"

abbrev pub event_reason_scaled_down : String
event_reason_scaled_down = "ScaledDown"

abbrev pub event_action_scale_up : String
event_action_scale_up = "ScaleUp"

abbrev pub event_action_scale_down : String
event_action_scale_down = "ScaleDown"
