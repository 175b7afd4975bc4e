-- ===== src/Tests/Admission.antt =====
-- The webhooks on concrete schedules.
use lightsout.Base.{
  ℕ, String, ◌≡◌, refl, true, false, ◌&&◌, ◌||◌, Option, none, some, List, [], ◌∷◌, contains,
  Result, ok, err, String-discrete, ◌==◌, if◌then◌else◌,
}
use lightsout.Base.Dict.{lookup, get, insert, erase}
use lightsout.Base.Int.{pos, ◌+ℤ◌}
use lightsout.Base.Names.{sort_names}
use lightsout.Json.{int}
use lightsout.JsonPointer.{replace_char, replace_pair, split, parse_parts, parse}
use lightsout.Kube.Cluster.{LabelSelector}
use lightsout.Api.{CustomResourceConfig, ScheduleCore, Schedule, NamespaceSchedule}
use lightsout.Namespaces.{add_all, remove_all, keys, selected, discover_namespaces}
use lightsout.Period.{Calendar, PeriodResult, calculate_period}
use lightsout.Webhook.Fields.{
  child, index, invalid, required, forbidden, is_empty, validate_rate_limit,
  validate_pointer_and_value, validate_set_fields, validate_ready_when, validate_delete,
  validate_entries, validate_custom_resources, validate_integration, validate_cron_expression,
  validate_argo_cd, validate_flux_cd, validate_schedule_core, validate_schedule_spec, set_default,
}
use lightsout.Webhook.Fields.Laws.{is_valid_core, selects, accepted_spec, accepted_has_period}
use lightsout.Webhook.Overlap.{
  label_selectors_equal, is_empty_label_selector, schedules_overlap, may_conflict,
  check_overlapping_schedules, check_global_schedule_overlap, allowed, validate_create,
  validate_update,
}
use lightsout.Webhook.Overlap.Laws.{is_one_selective, overlap_missed, unwarned_not_discovered}

-- One name for all that a run of the webhooks computes through.
run_admission : Unit {0}
unfolding String-discrete lookup get insert erase sort_names add_all remove_all keys selected
    discover_namespaces replace_char replace_pair split parse_parts parse validate_rate_limit
    validate_pointer_and_value validate_set_fields validate_ready_when validate_delete
    validate_entries validate_custom_resources validate_integration validate_cron_expression
    validate_argo_cd validate_flux_cd validate_schedule_core validate_schedule_spec set_default
    label_selectors_equal is_empty_label_selector schedules_overlap check_overlapping_schedules
    check_global_schedule_overlap validate_create validate_update
run_admission = tt

-- A calendar that knows two expressions and one location.
abbrev calendar : Calendar
calendar = record {
  Schedule = ℕ;
  Location = Unit {0};
  parse = λ s. if s == "0 8 * * *" then ok 8 else if s == "0 20 * * *" then ok 20 else err "no";
  load_location = λ s. if s == "UTC" then ok tt else err "unknown";
  next = λ hour loc t. t +ℤ pos hour;
  ten_years_before = λ loc t. t;
  digest = λ s. s;
}

abbrev core : String → List CustomResourceConfig → ScheduleCore
core timezone resources = record {
  upscale = "0 8 * * *";
  downscale = "0 20 * * *";
  timezone = timezone;
  suspend = false;
  workload_types = [];
  exclude_labels = none;
  include_owned_workloads = false;
  upscale_rate_limit = none;
  downscale_rate_limit = none;
  argo_cd = some (record { namespace = ""; warmup_timeout = some (pos 5); sync_waves = true });
  flux_cd = none;
  custom_resources = resources;
  custom_resource_warmup_timeout = none;
}

-- An entry that deletes and sets a field, by a pointer without its slash.
abbrev confused : CustomResourceConfig
confused = record {
  group = "postgresql.cnpg.io";
  version = "v1";
  kind = "Cluster";
  name = "";
  match_labels = [];
  set_fields = record { path = "spec/instances"; value = some (int (pos 0)) } ∷ [];
  ready_when = [];
  delete = true;
}

abbrev dev : LabelSelector
dev = record { match_labels = ("env", "dev") ∷ []; match_expressions = [] }

abbrev schedule : String → Option LabelSelector → List String → ScheduleCore → Schedule
schedule name selector namespaces spec = record {
  name = name;
  core = spec;
  choice = record {
    namespace_selector = selector;
    namespaces = namespaces;
    exclude_namespaces = [];
  };
}

abbrev by_name : Schedule
by_name = schedule "night" none ("api" ∷ []) (core "UTC" [])

abbrev by_selector : Schedule
by_selector = schedule "weekend" (some dev) [] (core "UTC" [])

admission_runs :
    (validate_schedule_spec calendar
        (λ s. true)
        (schedule "x" none [] (core "Mars" (confused ∷ [])))
      ≡ record { kind = invalid; path = child "spec" ∷ child "timezone" ∷ [] }
        ∷ record {
          kind = forbidden;
          path = child "spec" ∷ child "customResources" ∷ index 0 ∷ child "setFields" ∷ [];
        }
        ∷ record {
          kind = invalid;
          path =
              child "spec"
              ∷ child "customResources"
              ∷ index 0
              ∷ child "setFields"
              ∷ index 0
              ∷ child "path"
              ∷ [];
        }
        ∷ record { kind = required; path = child "spec" ∷ [] }
        ∷ [])
    × (validate_create calendar (λ s. true) (ok (by_name ∷ by_selector ∷ [])) by_name
        ≡ allowed (may_conflict "night" ∷ []))
    × (validate_update calendar (λ s. true) (ok (by_name ∷ by_selector ∷ [])) by_name ≡ allowed [])
unfolding run_admission
admission_runs = (refl, refl, refl)

accepted_spec_example :
    is_empty (validate_schedule_spec calendar (λ s. true) by_name)
    ≡ (is_valid_core calendar (λ s. true) by_name.core && selects by_name.choice)
accepted_spec_example = accepted_spec calendar (λ s. true) by_name

accepted_has_period_example :
    (r : PeriodResult) × ((calculate_period calendar "0 8 * * *" "0 20 * * *" "UTC" (pos 100) []).0
      ≡ ok r)
unfolding run_admission
accepted_has_period_example =
    accepted_has_period calendar (λ s. true) (core "" []) refl (pos 100) []

abbrev select : LabelSelector → Unit {0} → Result (List String)
select l s = ok ("api" ∷ [])

overlap_missed_example :
    (is_one_selective by_name by_selector || is_one_selective by_selector by_name) ≡ true
unfolding run_admission
overlap_missed_example =
    overlap_missed select tt by_name by_selector ("api" ∷ []) ("api" ∷ []) "api" refl refl refl refl
      refl

abbrev guest : NamespaceSchedule
guest = record { name = "own"; namespace = "batch"; core = core "UTC" [] }

unwarned_not_discovered_example : contains ("api" ∷ []) "batch" ≡ false
unfolding run_admission
unwarned_not_discovered_example =
    unwarned_not_discovered select tt [] [] by_name guest ("api" ∷ []) refl refl
