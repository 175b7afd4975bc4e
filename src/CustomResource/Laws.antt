-- ===== src/CustomResource/Laws.antt =====
-- The warm-up of a custom resource, and what it waits for.
use lightsout.Base.{
  String, ◌≡◌, refl, ap, Bool, true, false, not, ◌||◌, ◌&&◌, Option, none, some, arith, inl, inr,
  Bool-cases, ok, err,
}
use lightsout.Base.{◌==◌, if◌then◌else◌, String-discrete}
use lightsout.Base.Dict.{Dict, lookup, get}
use lightsout.Base.Int.{ℤ}
use lightsout.Constants.{
  managed_by_label, state_label, warming_up_since_annotation, original_fields_annotation,
}
use lightsout.Json.{Json}
use lightsout.Api.{CustomResourceConfig}
use lightsout.Kube.Patch.{build}
use lightsout.Kube.Client.{MergedMeta, label_after, annotation_after}
use lightsout.Kube.Objects.{ObjectMeta}
use lightsout.Kube.Cluster.{Cluster}
use lightsout.GitOps.Readiness.{check_workload_readiness}
use lightsout.GitOps.Marks.{has_failed, since_or_now, has_timed_out, warming_up_since}
use lightsout.GitOps.Marks.Answers.{Accepts, after_patch, object-patched, skipped-patched}
use lightsout.GitOps.Marks.Phases.{
  Phase, IsUnmarked, free, foreign, held, limbo, warming, phase_of, named_state,
  down_is_not_warming,
}
use lightsout.CustomResource.Access.{Resources, IsMetaPatch}
use lightsout.CustomResource.Fields.{clear_patch, clear_custom_resource_state}
use lightsout.CustomResource.Ready.{custom_resource_ready}
use lightsout.CustomResource.Warmup.{
  Pass, namespace_ready, agreed, finished, waiting, warm_custom_resource,
}

-- The abstract warm-up of a custom resource, by whether it is over for a start time.
abbrev pub next_phase : (Option ℤ → Bool) → Phase → Phase
next_phase over (warming since) = if over since then free else warming since
next_phase over free = free
next_phase over foreign = foreign
next_phase over held = held
next_phase over limbo = limbo

abbrev pub still_warming : (Option ℤ → Bool) → Phase → Bool
still_warming over (warming since) = not (over since)
still_warming over free = false
still_warming over foreign = false
still_warming over held = false
still_warming over limbo = false

-- Whether the warm-up is over: the timeout has passed, or the namespace is ready and the operator
-- does not say that the resource is not.
abbrev says_no : Option Bool → Bool
says_no none = false
says_no (some verdict) = not verdict

abbrev pub is_over : (ready : Bool) (verdict : Option Bool) (timeout now : ℤ) → Option ℤ → Bool
is_over ready verdict timeout now since =
    (ready && not (says_no verdict)) || has_timed_out now (since_or_now now since) timeout

-- The phases that the warm-up releases.
abbrev pub ends : (Option ℤ → Bool) → Phase → Bool
ends over (warming since) = over since
ends over free = false
ends over foreign = false
ends over held = false
ends over limbo = false

-- Nothing that a downscale wrote into the metadata is left.
pub record IsCleared (m : ObjectMeta) : Type 0 where
  pub unmarked : IsUnmarked m
  pub fields : lookup original_fields_annotation m.annotations ≡ none

abbrev is_warming : Phase → Bool
is_warming (warming since) = true
is_warming free = false
is_warming foreign = false
is_warming held = false
is_warming limbo = false

agreed_lem :
    (c : Cluster) (r : Resources c) (ready : Bool) (verdict : Option Bool)
    → agreed c r ready verdict ≡ (ready && not (says_no verdict))
agreed_lem c r ready none = ground arith
agreed_lem c r ready (some verdict) = ground arith

-- What the warm-up of a resource leaves: cleared where it ends, and untouched where it does not.
abbrev pub Leaves :
    (c : Cluster) (r : Resources c) → Json → c.client.State → Bool → Pass c r → Type 0
Leaves c r o s true w = IsCleared (r.meta_of w.object)
Leaves c r o s false w = (w.object ≡ o) × (w.state ≡ s)

module _ (c : Cluster) (r : Resources c) (timeout : ℤ) (schedule_name : String) (now : ℤ)
    (cfg : CustomResourceConfig) (o : Json) (readiness : Dict Bool) (s : c.client.State) where
  -- A resource that is not warming up under the schedule is passed over.
  passed_over :
      (phase : Phase)
      → phase_of c.parse_time schedule_name (r.meta_of o) ≡ phase
      → (schedule_name == "") ≡ false
      → is_warming phase ≡ false
      → warm_custom_resource c r timeout schedule_name now cfg o readiness s
        ≡ waiting c r false readiness o s
  unfolding warm_custom_resource phase_of get
  passed_over (warming since) h named off = cc
  passed_over free h named off = ground (arith, named_state)
  passed_over foreign h named off = ground (arith, named_state)
  passed_over held h named off = ground (arith, named_state, down_is_not_warming)
  passed_over limbo h named off = ground (arith, named_state)

  warm_lem :
      (since : Option ℤ) (ns_ready : Bool) (readiness' : Dict Bool)
      → phase_of c.parse_time schedule_name (r.meta_of o) ≡ warming since
      → namespace_ready c r (r.meta_of o).namespace readiness s ≡ ok (ns_ready, readiness')
      → warm_custom_resource c r timeout schedule_name now cfg o readiness s ≡ (
          if is_over ns_ready (custom_resource_ready c r o cfg) timeout now since
          then finished c r readiness' (clear_custom_resource_state c r o s)
          else waiting c r true readiness' o s)
  unfolding warm_custom_resource phase_of get warming_up_since
  warm_lem since ns_ready readiness' h e =
      ground (arith, down_is_not_warming, agreed_lem c r ns_ready (custom_resource_ready c r o cfg))

  -- Where the readiness of the namespace cannot be checked, a resource stays in its warm-up at any
  -- time, past its timeout too, and nothing is written.
  failed_check_outlasts_timeout :
      (since : Option ℤ) (e : String)
      → phase_of c.parse_time schedule_name (r.meta_of o) ≡ warming since
      → lookup (r.meta_of o).namespace readiness ≡ none
      → check_workload_readiness c (r.meta_of o).namespace s ≡ err e
      → warm_custom_resource c r timeout schedule_name now cfg o readiness s
        ≡ waiting c r true readiness o s
  unfolding warm_custom_resource phase_of get namespace_ready
  failed_check_outlasts_timeout since e h l k = ground (arith, down_is_not_warming)

module _ (c : Cluster) (r : Resources c) (law : IsMetaPatch c r) (schedule_name : String) (o : Json)
    (s : c.client.State) (fresh : r.endpoint.current s o ≡ o)
    (accepts : Accepts r.endpoint o s) where
  cleared_lem :
      (phase_of c.parse_time schedule_name (r.meta_of (clear_custom_resource_state c r o s).object)
        ≡ free)
      × ((clear_custom_resource_state c r o s).skipped ≡ ok false)
      × IsCleared (r.meta_of (clear_custom_resource_state c r o s).object)
  unfolding clear_custom_resource_state after_patch phase_of lookup String-discrete
  cleared_lem =
      let m : MergedMeta (build clear_patch) (r.meta_of o)
          (r.meta_of (after_patch r.endpoint o s accepts clear_patch)) =
        (let k = law o _ _ s _ (accepts (build clear_patch)).2 in rw fresh at k) in
      let at = object-patched r.endpoint o s accepts clear_patch in
      (
        rw (at, label_after clear_patch m managed_by_label) refl,
        skipped-patched r.endpoint o s accepts clear_patch,
        rw at (record {
          unmarked = record {
            managed_by = label_after clear_patch m managed_by_label;
            state = label_after clear_patch m state_label;
            since = annotation_after clear_patch m warming_up_since_annotation;
          };
          fields = annotation_after clear_patch m original_fields_annotation;
        }),
      )

  module _ (timeout now : ℤ) (cfg : CustomResourceConfig) (readiness readiness' : Dict Bool)
      (ns_ready : Bool) (named : (schedule_name == "") ≡ false)
      (checked : namespace_ready c r (r.meta_of o).namespace readiness s
        ≡ ok (ns_ready, readiness')) where
    -- What the loop leaves of a resource of that phase.
    abbrev Refines : Phase → Type 0
    Refines phase =
        let over = is_over ns_ready (custom_resource_ready c r o cfg) timeout now in
        let w = warm_custom_resource c r timeout schedule_name now cfg o readiness s in
        (phase_of c.parse_time schedule_name (r.meta_of w.object) ≡ next_phase over phase)
        × (w.still ≡ still_warming over phase)
        × Leaves c r o s (ends over phase) w

    by_phase :
        (phase : Phase) → phase_of c.parse_time schedule_name (r.meta_of o) ≡ phase → Refines phase
    by_phase (warming since) h =
        let runs =
          warm_lem c r timeout schedule_name now cfg o readiness s since ns_ready readiness' h
            checked in
        elim (Bool-cases (is_over ns_ready (custom_resource_ready c r o cfg) timeout now since)) [
          | inl over ↦ rw (runs, over) (cleared_lem.0, ap has_failed cleared_lem.1, cleared_lem.2)
          | inr on ↦ rw (runs, on) (h, refl, (refl, refl))
        ]
    by_phase free h =
        rw (passed_over c r timeout schedule_name now cfg o readiness s free h named refl)
          (h, refl, (refl, refl))
    by_phase foreign h =
        rw (passed_over c r timeout schedule_name now cfg o readiness s foreign h named refl)
          (h, refl, (refl, refl))
    by_phase held h =
        rw (passed_over c r timeout schedule_name now cfg o readiness s held h named refl)
          (h, refl, (refl, refl))
    by_phase limbo h =
        rw (passed_over c r timeout schedule_name now cfg o readiness s limbo h named refl)
          (h, refl, (refl, refl))

  -- Where the readiness of the namespace is known or can be checked, and the server accepts the
  -- patch, the loop of `handleCustomResourceWarmup` takes a resource through the abstract warm-up.
  -- One that warms up under the schedule is released exactly if its timeout has passed, or its
  -- namespace is ready and the operator does not say otherwise: then both labels and both
  -- annotations are gone. Every other is left alone: its object and the state are what they were.
  pub custom_resource_refines :
      (timeout now : ℤ) (cfg : CustomResourceConfig) (readiness readiness' : Dict Bool)
      (ns_ready : Bool)
      → (schedule_name == "") ≡ false
      → namespace_ready c r (r.meta_of o).namespace readiness s ≡ ok (ns_ready, readiness')
      → let phase = phase_of c.parse_time schedule_name (r.meta_of o) in
        let over = is_over ns_ready (custom_resource_ready c r o cfg) timeout now in
        let w = warm_custom_resource c r timeout schedule_name now cfg o readiness s in
        (phase_of c.parse_time schedule_name (r.meta_of w.object) ≡ next_phase over phase)
        × (w.still ≡ still_warming over phase)
        × Leaves c r o s (ends over phase) w
  custom_resource_refines timeout now cfg readiness readiness' ns_ready named checked =
      by_phase timeout now cfg readiness readiness' ns_ready named checked
        (phase_of c.parse_time schedule_name (r.meta_of o)) refl
