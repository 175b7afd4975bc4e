-- ===== src/GitOps/FluxCd/Machine.antt =====
-- `handleFluxCDWarmup` runs the abstract warm-up of GitOps/Marks/Phases, and ends by its timeout.
use lightsout.Base.{
  String, ◌≡◌, refl, ◌∙◌, ap, true, false, ◌||◌, Option, some, [], arith, inl, inr,
}
use lightsout.Base.{◌==◌, if◌then◌else◌, String-discrete, ok, Bool-cases}
use lightsout.Base.Dict.{get}
use lightsout.Base.Int.{ℤ}
use lightsout.Constants.{state_warming_up}
use lightsout.Json.{end, dig}
use lightsout.Kube.Objects.{FluxResource}
use lightsout.Kube.Patch.{ObjectPatch, build, spec_change}
use lightsout.Kube.Patch.Build.{dig_spec-build}
use lightsout.Kube.Client.{IsMergePatch, MergedMeta, merged_bool}
use lightsout.Kube.Cluster.{Cluster}
use lightsout.GitOps.Readiness.{check_workload_readiness}
use lightsout.GitOps.Marks.{
  has_failed, Warmed, warming_up_patch, since_or_now, has_timed_out, owned_by_other, in_state,
  warming_up_since,
}
use lightsout.GitOps.Marks.Answers.{Accepts, after_patch, object-patched, skipped-patched}
use lightsout.GitOps.Marks.Phases.{
  Phase, free, foreign, held, limbo, warming, phase_of, next_phase, still_warming, next_suspend,
  is_over, says_ready, phase-warming_up, phase-release, IsUnmarked, release-IsUnmarked,
  down_is_not_warming, named_state, held_guards, limbo_guards,
}
use lightsout.GitOps.FluxCd.{
  readiness_namespace, resume_patch, transition_flux_resource_to_warming_up, complete_flux_warmup,
  warm_flux_resource, flux_ready, resumed_flux, moved_flux,
}

-- The body of the loop, by the phase.
abbrev by_phase :
    (c : Cluster)
    → ℤ
    → String
    → ℤ
    → FluxResource
    → (s : c.client.State) → Phase
    → Warmed c.client.State FluxResource
by_phase c timeout schedule_name now o s free = record { still = false; object = o; state = s }
by_phase c timeout schedule_name now o s foreign = record { still = false; object = o; state = s }
by_phase c timeout schedule_name now o s held =
    moved_flux c (transition_flux_resource_to_warming_up c o schedule_name now s)
by_phase c timeout schedule_name now o s limbo =
    moved_flux c (transition_flux_resource_to_warming_up c o schedule_name now s)
by_phase c timeout schedule_name now o s (warming since) =
    let ready = says_ready (check_workload_readiness c (readiness_namespace o) s) in
    if has_timed_out now (since_or_now now since) timeout || ready
    then resumed_flux c (complete_flux_warmup c o s)
    else record { still = true; object = o; state = s }

warm-by_phase :
    (c : Cluster) (timeout : ℤ) (schedule_name : String) (now : ℤ) (o : FluxResource)
    (s : c.client.State)
    → (schedule_name == "") ≡ false
    → warm_flux_resource c timeout schedule_name now o s
      ≡ by_phase c timeout schedule_name now o s (phase_of c.parse_time schedule_name o.meta)
unfolding warm_flux_resource phase_of get warming_up_since flux_ready
warm-by_phase c timeout schedule_name now o s named =
    ground (arith, named_state, down_is_not_warming)

module _ (c : Cluster) (law : IsMergePatch c.client) (schedule_name : String) (o : FluxResource)
    (s : c.client.State) (fresh : c.client.flux.current s o ≡ o)
    (accepts : Accepts c.client.flux o s) where
  unfoldable pub answered : ObjectPatch → FluxResource
  answered p = after_patch c.client.flux o s accepts p

  pub answered_meta : (p : ObjectPatch) → MergedMeta (build p) o.meta (answered p).meta
  unfolding answered after_patch
  answered_meta p = let m = (law.flux o _ _ s _ (accepts (build p)).2).0 in rw fresh at m

  pub answered_suspend :
      (p : ObjectPatch)
      → (answered p).suspend ≡ merged_bool (spec_change "suspend" (build p)) o.suspend
  unfolding answered after_patch
  answered_suspend p = let m = (law.flux o _ _ s _ (accepts (build p)).2).1 in rw fresh at m

  -- A resource that is not another schedule's, nor warming up already, starts to warm up.
  begin_lem :
      (now : ℤ)
      → owned_by_other o.meta.labels schedule_name ≡ false
      → in_state state_warming_up o.meta.labels schedule_name ≡ false
      → let m = transition_flux_resource_to_warming_up c o schedule_name now s in
        (phase_of c.parse_time schedule_name m.object.meta
          ≡ warming (c.parse_time (c.format_time now)))
        × (m.object.suspend ≡ o.suspend)
  unfolding transition_flux_resource_to_warming_up answered dig
  begin_lem now mine settled =
      let p = warming_up_patch schedule_name (c.format_time now) end in
      rw (mine, settled, object-patched c.client.flux o s accepts p)
        (
          phase-warming_up c.parse_time schedule_name end (c.format_time now) (answered_meta p),
          answered_suspend p ∙ ap (λ x. merged_bool x o.suspend) (dig_spec-build p "suspend" []),
        )

  pub finish_lem :
      let m = complete_flux_warmup c o s in
      (phase_of c.parse_time schedule_name m.object.meta ≡ free)
      × (m.object.suspend ≡ some false)
      × (m.skipped ≡ ok false)
  unfolding complete_flux_warmup answered dig String-discrete
  finish_lem =
      let p = resume_patch in
      (
        rw (object-patched c.client.flux o s accepts p)
            (phase-release c.parse_time schedule_name _ (answered_meta p)),
        rw (object-patched c.client.flux o s accepts p) (
            answered_suspend p ∙ ap (λ x. merged_bool x o.suspend) (dig_spec-build p "suspend" [])),
        skipped-patched c.client.flux o s accepts p,
      )

  complete-IsUnmarked : IsUnmarked (complete_flux_warmup c o s).object.meta
  unfolding complete_flux_warmup answered
  complete-IsUnmarked =
      rw (object-patched c.client.flux o s accepts resume_patch)
        (release-IsUnmarked _ (answered_meta resume_patch))

  -- A resource whose warm-up is over loses every mark.
  pub over-IsUnmarked :
      (timeout now : ℤ) (since : Option ℤ)
      → (schedule_name == "") ≡ false
      → phase_of c.parse_time schedule_name o.meta ≡ warming since
      → is_over timeout now now
          (says_ready (check_workload_readiness c (readiness_namespace o) s))
          since
        ≡ true
      → IsUnmarked (warm_flux_resource c timeout schedule_name now o s).object.meta
  over-IsUnmarked timeout now since named h over =
      rw (warm-by_phase c timeout schedule_name now o s named, h, over) complete-IsUnmarked

  module _ (timeout now start : ℤ) (reads : c.parse_time (c.format_time now) ≡ some start)
      (named : (schedule_name == "") ≡ false) where
    -- What the loop leaves of the resource, by its phase.
    refined :
        (phase : Phase)
        → phase_of c.parse_time schedule_name o.meta ≡ phase
        → let ready = says_ready (check_workload_readiness c (readiness_namespace o) s) in
          let w = by_phase c timeout schedule_name now o s phase in
          (phase_of c.parse_time schedule_name w.object.meta
            ≡ next_phase timeout now start ready phase)
          × (w.object.suspend ≡ next_suspend timeout now start ready phase o.suspend)
          × (w.still ≡ still_warming timeout now start ready phase)
    refined free h = (h, refl, refl)
    refined foreign h = (h, refl, refl)
    refined held h =
        let (mine, settled) = held_guards c.parse_time schedule_name o.meta h in
        let (phase, suspend) = begin_lem now mine settled in
        (phase ∙ ap warming reads, suspend, refl)
    refined limbo h =
        let (mine, settled) = limbo_guards c.parse_time schedule_name o.meta h in
        let (phase, suspend) = begin_lem now mine settled in
        (phase ∙ ap warming reads, suspend, refl)
    refined (warming since) h =
        elim (Bool-cases (
          is_over timeout now start
            (says_ready (check_workload_readiness c (readiness_namespace o) s)) since)) [
              | inl over ↦ rw over (finish_lem.0, finish_lem.1, ap has_failed finish_lem.2)
              | inr on ↦ rw on (h, refl, refl)
            ]

    -- On a server that accepts the patch, the loop of `handleFluxCDWarmup` takes a resource through
    -- the abstract warm-up: its phase, its suspension and the answer whether it is still warming up
    -- are those of `next_phase`, `next_suspend` and `still_warming`, on every branch. The copy in
    -- hand is the server's, the name of the schedule is not empty, and the time reads back.
    pub flux_refines :
        let phase = phase_of c.parse_time schedule_name o.meta in
        let ready = says_ready (check_workload_readiness c (readiness_namespace o) s) in
        let w = warm_flux_resource c timeout schedule_name now o s in
        (phase_of c.parse_time schedule_name w.object.meta
          ≡ next_phase timeout now start ready phase)
        × (w.object.suspend ≡ next_suspend timeout now start ready phase o.suspend)
        × (w.still ≡ still_warming timeout now start ready phase)
    flux_refines = rw (warm-by_phase c timeout schedule_name now o s named) (refined _ refl)
