-- ===== src/Webhook/Fields.antt =====
-- `ValidateScheduleCore` of internal/webhook/lightsoutschedule_validator.go and the checks that it
-- is made of. An error is its kind and its path; the value and the text are left out.
pub mod Laws
use lightsout.Base.{
  ℕ, suc, String, Bool, true, false, not, ◌&&◌, ◌||◌, Option, none, some, List, [], ◌∷◌, ◌++◌, map,
}
use lightsout.Base.{◌==◌, ◌!=◌, if◌then◌else◌, Result, ok, err}
use lightsout.Base.Int.{ℤ, pos, leb_ℤ, ltb_ℤ}
use lightsout.Constants.{default_timezone}
use lightsout.Json.{Json}
use lightsout.JsonPointer.{parse as parse_pointer}
use lightsout.Api.{
  RateLimitConfig, ArgoCdConfig, FluxCdConfig, FieldPatch, FieldMatch, CustomResourceConfig,
  ScheduleCore, Schedule,
}
use lightsout.Namespaces.{NamespaceChoice}
use lightsout.Period.{Calendar}

pub data Segment : Type 0 where
  child : String → Segment
  index : ℕ → Segment

pub data ErrorKind : Type 0 where
  invalid required forbidden : ErrorKind

pub record FieldError : Type 0 where
  pub kind : ErrorKind
  pub path : List Segment

abbrev pub spec_path : List String → List Segment
spec_path names = child "spec" ∷ map child names

abbrev pub invalid_at : List Segment → FieldError
invalid_at path = record { kind = invalid; path = path }

-- The error that a test appends to `errs` where it is true.
abbrev pub report : Bool → FieldError → List FieldError
report true e = e ∷ []
report false e = []

abbrev pub is_err {ℓ} : {A : Type ℓ} → Result A → Bool
is_err (ok a) = false
is_err (err e) = true

-- `d != nil && *d <= 0`, and the same with `<`.
abbrev pub is_not_positive : Option ℤ → Bool
is_not_positive none = false
is_not_positive (some n) = leb_ℤ n (pos 0)

abbrev pub is_negative : Option ℤ → Bool
is_negative none = false
is_negative (some n) = ltb_ℤ n (pos 0)

-- `ValidateRateLimit`
unfoldable pub validate_rate_limit : Option RateLimitConfig → String → List FieldError
validate_rate_limit none field_path = []
validate_rate_limit (some r) field_path =
    report (is_not_positive r.batch_size) (invalid_at (spec_path (field_path ∷ "batchSize" ∷ [])))
    ++ report (is_negative r.delay_between_batches)
        (invalid_at (spec_path (field_path ∷ "delayBetweenBatches" ∷ [])))

abbrev pub is_absent : Option Json → Bool
is_absent none = true
is_absent (some v) = false

-- `validatePointerAndValue`
unfoldable pub validate_pointer_and_value : List Segment → String → Option Json → List FieldError
validate_pointer_and_value path pointer raw =
    report (is_err (parse_pointer pointer)) (invalid_at (path ++ (child "path" ∷ [])))
    ++ report (is_absent raw) (record { kind = required; path = path ++ (child "value" ∷ []) })

unfoldable pub validate_set_fields : List Segment → ℕ → List FieldPatch → List FieldError
validate_set_fields path j [] = []
validate_set_fields path j (f ∷ more) =
    validate_pointer_and_value (path ++ (child "setFields" ∷ index j ∷ [])) f.path f.value
    ++ validate_set_fields path (suc j) more

unfoldable pub validate_ready_when : List Segment → ℕ → List FieldMatch → List FieldError
validate_ready_when path j [] = []
validate_ready_when path j (f ∷ more) =
    validate_pointer_and_value (path ++ (child "readyWhen" ∷ index j ∷ [])) f.path f.value
    ++ validate_ready_when path (suc j) more

abbrev pub is_empty {ℓ} : {A : Type ℓ} → List A → Bool
is_empty [] = true
is_empty (x ∷ xs) = false

abbrev misuse : ErrorKind → List Segment → String → FieldError
misuse kind path name = record { kind = kind; path = path ++ (child name ∷ []) }

-- Whether an entry that deletes sets or awaits something, and one that does not sets nothing.
unfoldable pub validate_delete : List Segment → CustomResourceConfig → List FieldError
validate_delete path cfg =
    if cfg.delete
    then report (not (is_empty cfg.set_fields)) (misuse forbidden path "setFields")
      ++ report (not (is_empty cfg.ready_when)) (misuse forbidden path "readyWhen")
    else report (is_empty cfg.set_fields) (misuse required path "setFields")

-- The loop of `ValidateCustomResources`, from an index on.
unfoldable pub validate_entries : ℕ → List CustomResourceConfig → List FieldError
validate_entries i [] = []
validate_entries i (cfg ∷ more) =
    let path = child "spec" ∷ child "customResources" ∷ index i ∷ [] in
    (validate_delete path cfg
      ++ (validate_set_fields path 0 cfg.set_fields ++ validate_ready_when path 0 cfg.ready_when))
    ++ validate_entries (suc i) more

-- `ValidateCustomResources`
unfoldable pub validate_custom_resources : List CustomResourceConfig → List FieldError
validate_custom_resources cfgs = validate_entries 0 cfgs

-- What the code calls of the `time`, cron and validation packages: `k` as for the periods, and
-- `is_dns_label` is whether `IsDNS1123Label` finds no error.
module _ (k : Calendar) (is_dns_label : String → Bool) where
  -- `validateIntegration`
  unfoldable pub validate_integration : String → String → Option ℤ → List FieldError
  validate_integration field_name namespace warmup_timeout =
      report (namespace != "" && not (is_dns_label namespace))
        (invalid_at (spec_path (field_name ∷ "namespace" ∷ [])))
      ++ report (is_not_positive warmup_timeout)
          (invalid_at (spec_path (field_name ∷ "warmupTimeout" ∷ [])))

  -- `validateCronExpression`
  unfoldable pub validate_cron_expression : String → Bool
  validate_cron_expression expr = is_err (k.parse expr)

  -- The two calls of `validateIntegration`, under their guards.
  unfoldable pub validate_argo_cd : Option ArgoCdConfig → List FieldError
  validate_argo_cd none = []
  validate_argo_cd (some a) = validate_integration "argoCD" a.namespace a.warmup_timeout

  unfoldable pub validate_flux_cd : Option FluxCdConfig → List FieldError
  validate_flux_cd none = []
  validate_flux_cd (some f) = validate_integration "fluxCD" f.namespace f.warmup_timeout

  -- `ValidateScheduleCore`: the errors in the order of the source; none is nil.
  unfoldable pub validate_schedule_core : ScheduleCore → List FieldError
  validate_schedule_core core =
      report (validate_cron_expression core.upscale) (invalid_at (spec_path ("upscale" ∷ [])))
      ++ (report (validate_cron_expression core.downscale)
            (invalid_at (spec_path ("downscale" ∷ [])))
          ++ (report (core.timezone != "" && is_err (k.load_location core.timezone))
                (invalid_at (spec_path ("timezone" ∷ [])))
              ++ (validate_rate_limit core.upscale_rate_limit "upscaleRateLimit"
                  ++ (validate_rate_limit core.downscale_rate_limit "downscaleRateLimit"
                      ++ (validate_argo_cd core.argo_cd
                          ++ (validate_flux_cd core.flux_cd
                              ++ (validate_custom_resources core.custom_resources
                                  ++ report (is_not_positive core.custom_resource_warmup_timeout) (
                                      invalid_at
                                        (spec_path ("customResourceWarmupTimeout" ∷ []))))))))))

  -- `ValidateScheduleSpec`
  unfoldable pub validate_schedule_spec : Schedule → List FieldError
  validate_schedule_spec schedule =
      validate_schedule_core schedule.core ++ (elim (schedule.choice.namespace_selector) [
        | some _ ↦ []
        | none ↦
            report (is_empty schedule.choice.namespaces)
              (record { kind = required; path = spec_path [] })
      ])

-- `Default` of either kind of schedule, on the fields that they share.
unfoldable pub set_default : ScheduleCore → ScheduleCore
set_default core = if core.timezone == "" then record core { timezone = default_timezone } else core
