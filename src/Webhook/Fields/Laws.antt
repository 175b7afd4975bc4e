-- ===== src/Webhook/Fields/Laws.antt =====
-- Which schedules the webhooks accept, and what an accepted schedule can rely on.
use mathlib.Core.Bool.{and_assoc}
use lightsout.Base.{
  ℕ, suc, String, ◌≡◌, refl, Bool, true, false, not, ◌&&◌, ◌||◌, Option, none, some, List, [], ◌∷◌,
  ◌++◌, arith, all, inl, inr, Option-cases, Bool-cases,
}
use lightsout.Base.{◌==◌, ◌!=◌, if◌then◌else◌, String-discrete, Result, ok, err}
use lightsout.Base.Int.{ℤ}
use lightsout.Constants.{default_timezone}
use lightsout.Json.{Json}
use lightsout.JsonPointer.{parse as parse_pointer}
use lightsout.Api.{
  RateLimitConfig, ArgoCdConfig, FluxCdConfig, FieldPatch, FieldMatch, CustomResourceConfig,
  ScheduleCore, Schedule,
}
use lightsout.Namespaces.{NamespaceChoice}
use lightsout.Period.{
  Calendar, PeriodResult, PeriodCache, get_cached_period, generate_cache_key, period_at,
  calculate_period,
}
use lightsout.Webhook.Fields.{
  Segment, child, index, FieldError, report, is_err, is_not_positive, is_negative, is_absent,
  is_empty, validate_rate_limit, validate_pointer_and_value, validate_set_fields,
  validate_ready_when, validate_delete, validate_entries, validate_custom_resources,
  validate_integration, validate_cron_expression, validate_argo_cd, validate_flux_cd,
  validate_schedule_core, validate_schedule_spec, set_default,
}

-- What a valid schedule is, field by field.
abbrev pub is_valid_limit : Option RateLimitConfig → Bool
is_valid_limit none = true
is_valid_limit (some r) =
    not (is_not_positive r.batch_size) && not (is_negative r.delay_between_batches)

abbrev pub is_valid_field : String → Option Json → Bool
is_valid_field pointer value = not (is_err (parse_pointer pointer)) && not (is_absent value)

-- An entry either deletes, and does no more, or sets fields; and its pointers parse, and all of its
-- values are given.
abbrev pub is_valid_entry : CustomResourceConfig → Bool
is_valid_entry cfg =
    (if cfg.delete
      then is_empty cfg.set_fields && is_empty cfg.ready_when
      else not (is_empty cfg.set_fields))
    && all (λ f. is_valid_field f.path f.value) cfg.set_fields
    && all (λ f. is_valid_field f.path f.value) cfg.ready_when

abbrev pub is_valid_integration : (String → Bool) → String → Option ℤ → Bool
is_valid_integration is_dns_label namespace timeout =
    (namespace == "" || is_dns_label namespace) && not (is_not_positive timeout)

abbrev pub is_valid_argo_cd : (String → Bool) → Option ArgoCdConfig → Bool
is_valid_argo_cd is_dns_label none = true
is_valid_argo_cd is_dns_label (some a) =
    is_valid_integration is_dns_label a.namespace a.warmup_timeout

abbrev pub is_valid_flux_cd : (String → Bool) → Option FluxCdConfig → Bool
is_valid_flux_cd is_dns_label none = true
is_valid_flux_cd is_dns_label (some f) =
    is_valid_integration is_dns_label f.namespace f.warmup_timeout

abbrev pub is_valid_core : Calendar → (String → Bool) → ScheduleCore → Bool
is_valid_core k is_dns_label core =
    not (is_err (k.parse core.upscale))
    && not (is_err (k.parse core.downscale))
    && (core.timezone == "" || not (is_err (k.load_location core.timezone)))
    && is_valid_limit core.upscale_rate_limit
    && is_valid_limit core.downscale_rate_limit
    && is_valid_argo_cd is_dns_label core.argo_cd
    && is_valid_flux_cd is_dns_label core.flux_cd
    && all is_valid_entry core.custom_resources
    && not (is_not_positive core.custom_resource_warmup_timeout)

is_empty-append : {A : Type 0} (xs ys : List A) → is_empty (xs ++ ys) ≡ (is_empty xs && is_empty ys)
is_empty-append [] ys = ground arith
is_empty-append (x ∷ xs) ys = refl

is_empty-report : (b : Bool) (e : FieldError) → is_empty (report b e) ≡ not b
is_empty-report true e = refl
is_empty-report false e = refl

ruleset emptiness = (is_empty-append, is_empty-report)

limit_lem :
    (r : Option RateLimitConfig) (name : String)
    → is_empty (validate_rate_limit r name) ≡ is_valid_limit r
unfolding validate_rate_limit
limit_lem none name = refl
limit_lem (some r) name = simp emptiness

field_lem :
    (path : List Segment) (pointer : String) (raw : Option Json)
    → is_empty (validate_pointer_and_value path pointer raw) ≡ is_valid_field pointer raw
unfolding validate_pointer_and_value
field_lem path pointer raw = simp emptiness

set_fields_lem :
    (path : List Segment) (j : ℕ) (fs : List FieldPatch)
    → is_empty (validate_set_fields path j fs) ≡ all (λ f. is_valid_field f.path f.value) fs
unfolding validate_set_fields
set_fields_lem path j [] = refl
set_fields_lem path j (f ∷ fs) = simp (is_empty-append, field_lem, set_fields_lem path (suc j) fs)

ready_when_lem :
    (path : List Segment) (j : ℕ) (fs : List FieldMatch)
    → is_empty (validate_ready_when path j fs) ≡ all (λ f. is_valid_field f.path f.value) fs
unfolding validate_ready_when
ready_when_lem path j [] = refl
ready_when_lem path j (f ∷ fs) = simp (is_empty-append, field_lem, ready_when_lem path (suc j) fs)

delete_lem :
    (path : List Segment) (cfg : CustomResourceConfig)
    → is_empty (validate_delete path cfg) ≡ (
        if cfg.delete
        then is_empty cfg.set_fields && is_empty cfg.ready_when
        else not (is_empty cfg.set_fields))
unfolding validate_delete
delete_lem path cfg = elim (Bool-cases cfg.delete) [
  | inl yes_delete ↦ rw yes_delete (simp emptiness (ground arith))
  | inr kept ↦ rw kept (simp emptiness (ground arith))
]

entries_lem :
    (i : ℕ) (cfgs : List CustomResourceConfig)
    → is_empty (validate_entries i cfgs) ≡ all is_valid_entry cfgs
unfolding validate_entries
entries_lem i [] = refl
entries_lem i (cfg ∷ cfgs) =
    let path = child "spec" ∷ child "customResources" ∷ index i ∷ [] in
    rw
      (
        is_empty-append
            (validate_delete path cfg
              ++ (validate_set_fields path 0 cfg.set_fields
                  ++ validate_ready_when path 0 cfg.ready_when))
            (validate_entries (suc i) cfgs),
        is_empty-append (validate_delete path cfg) (
            validate_set_fields path 0 cfg.set_fields ++ validate_ready_when path 0 cfg.ready_when),
        is_empty-append (validate_set_fields path 0 cfg.set_fields)
            (validate_ready_when path 0 cfg.ready_when),
        delete_lem path cfg,
        set_fields_lem path 0 cfg.set_fields,
        ready_when_lem path 0 cfg.ready_when,
        entries_lem (suc i) cfgs,
      )
      (ground arith)

integration_lem :
    (k : Calendar) (is_dns_label : String → Bool) (name namespace : String) (timeout : Option ℤ)
    → is_empty (validate_integration k is_dns_label name namespace timeout)
      ≡ is_valid_integration is_dns_label namespace timeout
unfolding validate_integration
integration_lem k is_dns_label name namespace timeout = simp emptiness (ground arith)

argo_cd_lem :
    (k : Calendar) (is_dns_label : String → Bool) (a : Option ArgoCdConfig)
    → is_empty (validate_argo_cd k is_dns_label a) ≡ is_valid_argo_cd is_dns_label a
unfolding validate_argo_cd
argo_cd_lem k is_dns_label none = refl
argo_cd_lem k is_dns_label (some a) =
    integration_lem k is_dns_label "argoCD" a.namespace a.warmup_timeout

flux_cd_lem :
    (k : Calendar) (is_dns_label : String → Bool) (f : Option FluxCdConfig)
    → is_empty (validate_flux_cd k is_dns_label f) ≡ is_valid_flux_cd is_dns_label f
unfolding validate_flux_cd
flux_cd_lem k is_dns_label none = refl
flux_cd_lem k is_dns_label (some f) =
    integration_lem k is_dns_label "fluxCD" f.namespace f.warmup_timeout

timezone_lem :
    (timezone : String) (bad : Bool) → not (timezone != "" && bad) ≡ (timezone == "" || not bad)
timezone_lem timezone bad = ground arith

-- A schedule is accepted exactly if it is valid.
pub accepted_core :
    (k : Calendar) (is_dns_label : String → Bool) (core : ScheduleCore)
    → is_empty (validate_schedule_core k is_dns_label core) ≡ is_valid_core k is_dns_label core
unfolding validate_schedule_core validate_cron_expression validate_custom_resources
accepted_core k is_dns_label core =
    simp (emptiness, limit_lem, argo_cd_lem, flux_cd_lem, entries_lem, timezone_lem, and_assoc) refl

abbrev pub selects : NamespaceChoice → Bool
selects choice = elim (choice.namespace_selector) [
  | some _ ↦ true
  | none ↦ not (is_empty choice.namespaces)
]

-- A global schedule is accepted exactly if its core is valid and it has a selector or names a
-- namespace.
pub accepted_spec :
    (k : Calendar) (is_dns_label : String → Bool) (schedule : Schedule)
    → is_empty (validate_schedule_spec k is_dns_label schedule)
      ≡ (is_valid_core k is_dns_label schedule.core && selects schedule.choice)
unfolding validate_schedule_spec
accepted_spec k is_dns_label schedule = elim (Option-cases schedule.choice.namespace_selector) [
  | inl e ↦ rw e (simp (emptiness, accepted_core))
  | inr (l, e) ↦ rw e (simp (emptiness, accepted_core))
]

pub append-eq-nil : {A : Type 0} (xs ys : List A) → xs ++ ys ≡ [] → (xs ≡ []) × (ys ≡ [])
append-eq-nil [] ys h = (refl, h)
append-eq-nil (x ∷ xs) ys h = cc

report-eq-nil : (b : Bool) (e : FieldError) → report b e ≡ [] → b ≡ false
report-eq-nil true e h = cc
report-eq-nil false e h = refl

succeeds : {A : Type 0} (r : Result A) → is_err r ≡ false → (a : A) × (r ≡ ok a)
succeeds (ok a) h = (a, refl)
succeeds (err e) h = cc

default_is_named : (default_timezone != "") ≡ true
unfolding String-discrete
default_is_named = refl

set_default-timezone : (core : ScheduleCore) → ((set_default core).timezone != "") ≡ true
unfolding set_default
set_default-timezone core = ground (arith, default_is_named)

-- Where the two expressions and the location are known, a period is computed.
period_total :
    (k : Calendar) (up down timezone : String) (now : ℤ) (cache : PeriodCache) {u d : k.Schedule}
    {l : k.Location}
    → k.load_location timezone ≡ ok l
    → k.parse up ≡ ok u
    → k.parse down ≡ ok d
    → (r : PeriodResult) × ((calculate_period k up down timezone now cache).0 ≡ ok r)
unfolding calculate_period
period_total k up down timezone now cache {u} {d} {l} a b c =
    elim (Option-cases (get_cached_period (generate_cache_key k up down timezone) now cache)) [
      | inr (r, e) ↦ (r, rw (e, calculate_period) refl)
      | inl e ↦ (period_at k up down u d l now, rw (e, a, b, c, calculate_period) refl)
    ]

-- A defaulted schedule that the webhook accepts never makes the computation of its period fail, at
-- any time and with any cache.
pub accepted_has_period :
    (k : Calendar) (is_dns_label : String → Bool) (core : ScheduleCore)
    → let final = set_default core in
      validate_schedule_core k is_dns_label final ≡ []
      → (now : ℤ) (cache : PeriodCache)
      → (r : PeriodResult) × ((calculate_period k final.upscale final.downscale final.timezone now
            cache).0
          ≡ ok r)
unfolding validate_schedule_core validate_cron_expression
accepted_has_period k is_dns_label core h now cache =
    let final = set_default core in
    let (up_ok, rest) = append-eq-nil _ _ h in
    let (down_ok, rest2) = append-eq-nil _ _ rest in
    let (zone_ok, _) = append-eq-nil _ _ rest2 in
    let (u, pu) = succeeds (k.parse final.upscale) (report-eq-nil _ _ up_ok) in
    let (d, pd) = succeeds (k.parse final.downscale) (report-eq-nil _ _ down_ok) in
    let zone =
      report-eq-nil (final.timezone != "" && is_err (k.load_location final.timezone)) _ zone_ok in
    let (l, pl) =
      succeeds (k.load_location final.timezone) (rw (set_default-timezone core) at zone) in
    period_total k final.upscale final.downscale final.timezone now cache pl pu pd
