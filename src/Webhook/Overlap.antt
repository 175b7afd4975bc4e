-- ===== src/Webhook/Overlap.antt =====
-- Warnings about schedules that target the same namespaces, and what the two validators answer:
-- internal/webhook/lightsoutschedule_validator.go and lightsoutnamespaceschedule_validator.go.
pub mod Laws
use lightsout.Base.{
  ℕ, String, Bool, true, false, not, ◌&&◌, ◌||◌, Option, none, some, List, [], ◌∷◌, ◌++◌, contains,
  length, any, all,
}
use lightsout.Base.{◌==◌, ◌!=◌, if◌then◌else◌, eqb, Result, ok, err}
use lightsout.Base.Dict.{Dict, get}
use lightsout.Kube.Cluster.{LabelSelector, Requirement}
use lightsout.Api.{Schedule, NamespaceSchedule}
use lightsout.Period.{Calendar}
use lightsout.Webhook.Fields.{
  FieldError, is_empty, validate_schedule_core, validate_schedule_spec, set_default,
}

abbrev labels_match : Dict String → Dict String → Bool
labels_match a b = all (λ kv. get kv.0 b == kv.1) a

abbrev requirement_equal : Requirement → Requirement → Bool
requirement_equal a b =
    a.key == b.key
    && a.operator == b.operator
    && eqb (length a.values) (length b.values)
    && all (contains a.values) b.values

-- The loop over the two lists of the same length.
abbrev requirements_equal : List Requirement → List Requirement → Bool
requirements_equal [] bs = true
requirements_equal (a ∷ as') [] = true
requirements_equal (a ∷ as') (b ∷ bs) = requirement_equal a b && requirements_equal as' bs

-- `LabelSelectorsEqual`, of selectors that are there
unfoldable pub label_selectors_equal : LabelSelector → LabelSelector → Bool
label_selectors_equal a b =
    eqb (length a.match_labels) (length b.match_labels)
    && labels_match a.match_labels b.match_labels
    && eqb (length a.match_expressions) (length b.match_expressions)
    && requirements_equal a.match_expressions b.match_expressions

-- `IsEmptyLabelSelector`
unfoldable pub is_empty_label_selector : Option LabelSelector → Bool
is_empty_label_selector none = true
is_empty_label_selector (some l) = is_empty l.match_labels && is_empty l.match_expressions

abbrev is_some {ℓ} : {A : Type ℓ} → Option A → Bool
is_some none = false
is_some (some a) = true

-- Where both schedules have a selector: each of the three tests of the source answers true.
abbrev selectors_overlap : Option LabelSelector → Option LabelSelector → Bool
selectors_overlap (some a) (some b) =
    if label_selectors_equal a b
    then true
    else if is_empty_label_selector (some a) || is_empty_label_selector (some b)
    then true
    else true
selectors_overlap _ _ = false

-- A selector that is there and matches everything.
abbrev is_catch_all : Option LabelSelector → Bool
is_catch_all none = false
is_catch_all (some l) = is_empty_label_selector (some l)

-- `SchedulesOverlap`
unfoldable pub schedules_overlap : Schedule → Schedule → Bool
schedules_overlap a b =
    if any (contains a.choice.namespaces) b.choice.namespaces
    then true
    else if selectors_overlap a.choice.namespace_selector b.choice.namespace_selector
    then true
    else if is_catch_all a.choice.namespace_selector && not (is_empty b.choice.namespaces)
    then true
    else if is_catch_all b.choice.namespace_selector && not (is_empty a.choice.namespaces)
    then true
    else false

-- A warning names the schedule that is in conflict, and whether by name or by selector; or says
-- that the check could not be made.
pub data Warning : Type 0 where
  may_conflict : String → Warning
  targets_namespace : String → Warning
  may_select_namespace : String → Warning
  not_checked : Warning

abbrev conflicts_with : Schedule → String → List Schedule → List Warning
conflicts_with schedule exclude_name [] = []
conflicts_with schedule exclude_name (e ∷ more) =
    let rest = conflicts_with schedule exclude_name more in
    if e.name == exclude_name
    then rest
    else if schedules_overlap schedule e
    then may_conflict e.name ∷ rest
    else rest

-- `checkOverlappingSchedules`; `listed` is the list of all schedules.
unfoldable pub check_overlapping_schedules :
    Result (List Schedule) → Schedule → String → List Warning
check_overlapping_schedules (err e) schedule exclude_name = not_checked ∷ []
check_overlapping_schedules (ok listed) schedule exclude_name =
    conflicts_with schedule exclude_name listed

abbrev targets_by_name : Schedule → String → List Warning
targets_by_name global ns =
    if contains global.choice.namespaces ns then targets_namespace global.name ∷ [] else []

abbrev targets_by_selector : Schedule → List Warning
targets_by_selector global =
    if is_some global.choice.namespace_selector then may_select_namespace global.name ∷ [] else []

abbrev claims_of : List Schedule → String → List Warning
claims_of [] ns = []
claims_of (global ∷ more) ns =
    (targets_by_name global ns ++ targets_by_selector global) ++ claims_of more ns

-- `checkGlobalScheduleOverlap`
unfoldable pub check_global_schedule_overlap :
    Result (List Schedule) → NamespaceSchedule → List Warning
check_global_schedule_overlap (err e) schedule = not_checked ∷ []
check_global_schedule_overlap (ok globals) schedule = claims_of globals schedule.namespace

-- What an admission answers: the errors that deny it, or warnings.
pub data Admission : Type 0 where
  denied : List FieldError → Admission
  allowed : List Warning → Admission

abbrev admit : List FieldError → List Warning → Admission
admit [] warnings = allowed warnings
admit (e ∷ errors) warnings = denied (e ∷ errors)

module _ (k : Calendar) (is_dns_label : String → Bool) (listed : Result (List Schedule)) where
  -- `ValidateCreate` and `ValidateUpdate` of a global schedule
  unfoldable pub validate_create : Schedule → Admission
  validate_create schedule =
      admit (validate_schedule_spec k is_dns_label schedule)
        (check_overlapping_schedules listed schedule "")

  unfoldable pub validate_update : Schedule → Admission
  validate_update schedule =
      admit (validate_schedule_spec k is_dns_label schedule)
        (check_overlapping_schedules listed schedule schedule.name)

  -- `ValidateCreate` and `ValidateUpdate` of a namespace schedule, which are the same
  unfoldable pub validate_namespace_schedule : NamespaceSchedule → Admission
  validate_namespace_schedule schedule =
      admit (validate_schedule_core k is_dns_label schedule.core)
        (check_global_schedule_overlap listed schedule)
