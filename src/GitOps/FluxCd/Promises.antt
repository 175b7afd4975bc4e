-- ===== src/GitOps/FluxCd/Promises.antt =====
-- Suspending a Flux resource and resuming it, as moves of its phase.
use lightsout.Base.{String, ◌≡◌, refl, ◌∙◌, ap, Bool, true, false, Option, none, some, [], arith}
use lightsout.Base.{◌==◌, if◌then◌else◌, String-discrete}
use lightsout.Base.Dict.{get}
use lightsout.Base.Int.{ℤ, ◌≤ℤ◌, ◌+ℤ◌, +ℤ_parts, -ℤ_parts}
use lightsout.Json.{bool, end, member, dig}
use lightsout.Kube.Objects.{FluxResource}
use lightsout.Kube.Patch.Build.{dig_spec-build}
use lightsout.Kube.Client.{IsMergePatch, merged_bool, apply_merge_patch}
use lightsout.Kube.Cluster.{Cluster, IsClock}
use lightsout.GitOps.Readiness.{check_workload_readiness}
use lightsout.GitOps.Marks.{Marked, skip, patched, owned_by_other, in_state}
use lightsout.GitOps.Marks.Answers.{Accepts, object-patched}
use lightsout.GitOps.Marks.Phases.{
  Phase, IsUnmarked, free, foreign, held, limbo, warming, phase_of, next_phase, is_over, says_ready,
  phase-down, down_is_not_warming, named_state,
}
use lightsout.GitOps.FluxCd.{
  is_suspended, readiness_namespace, suspend_patch, suspend_flux_resource, resume_flux_resource,
  complete_flux_warmup, warm_flux_resource,
}
use lightsout.GitOps.FluxCd.Machine.{
  answered, answered_meta, answered_suspend, finish_lem, over-IsUnmarked, flux_refines,
}

-- The abstract downscale of a resource: what is free is held, unless its user has suspended it.
abbrev pub down_phase : Bool → Phase → Phase
down_phase suspended foreign = foreign
down_phase suspended free = if suspended then free else held
down_phase suspended held = held
down_phase suspended limbo = held
down_phase suspended (warming since) = held

abbrev pub down_suspend : Option Bool → Phase → Option Bool
down_suspend old foreign = old
down_suspend none free = some true
down_suspend (some b) free = some true
down_suspend old held = some true
down_suspend old limbo = some true
down_suspend old (warming since) = some true

abbrev resumed_by :
    (c : Cluster) → FluxResource → (s : c.client.State) → Phase → Marked c.client.State FluxResource
resumed_by c o s foreign = skip o s
resumed_by c o s free = skip o s
resumed_by c o s held = complete_flux_warmup c o s
resumed_by c o s limbo = complete_flux_warmup c o s
resumed_by c o s (warming since) = complete_flux_warmup c o s

-- The abstract release of a resource by its own schedule.
abbrev pub released_phase : Phase → Phase
released_phase foreign = foreign
released_phase _ = free

abbrev pub released_suspend : Phase → Option Bool → Option Bool
released_suspend foreign old = old
released_suspend free old = old
released_suspend _ old = some false

module _ (c : Cluster) (o : FluxResource) (schedule_name : String) (s : c.client.State) where
  abbrev write_down : Marked c.client.State FluxResource
  write_down = patched o (apply_merge_patch c.client.flux o (suspend_patch schedule_name) s)

  -- `SuspendFluxResource` and `ResumeFluxResource`, by the phase.
  abbrev suspended_by : Phase → Marked c.client.State FluxResource
  suspended_by foreign = skip o s
  suspended_by free = if is_suspended o then skip o s else write_down
  suspended_by held = if is_suspended o then skip o s else write_down
  suspended_by limbo = write_down
  suspended_by (warming since) = write_down

  suspend-by_phase :
      (schedule_name == "") ≡ false
      → suspend_flux_resource c o schedule_name s
        ≡ suspended_by (phase_of c.parse_time schedule_name o.meta)
  unfolding suspend_flux_resource phase_of get owned_by_other in_state
  suspend-by_phase named = ground (arith, down_is_not_warming, named_state)

  resume-by_phase :
      resume_flux_resource c o schedule_name s
      ≡ resumed_by c o s (phase_of c.parse_time schedule_name o.meta)
  unfolding resume_flux_resource phase_of complete_flux_warmup
  resume-by_phase = ground arith

module _ (c : Cluster) (law : IsMergePatch c.client) (schedule_name : String) (o : FluxResource)
    (s : c.client.State) (fresh : c.client.flux.current s o ≡ o)
    (accepts : Accepts c.client.flux o s) where
  timeout_lem :
      (clock : IsClock c) (timeout t0 t1 : ℤ) (ready : Bool)
      → t0 +ℤ timeout ≤ℤ t1
      → is_over timeout t1 t1 ready (some (clock.read t0)) ≡ true
  timeout_lem clock timeout t0 t1 ready h =
      ground (arith, clock.not_later t0, +ℤ_parts t0 timeout, -ℤ_parts t1 (clock.read t0))

  -- A resource that was held when a warm-up step ran at t0 is resumed, carries neither of the two
  -- labels nor the annotation with the start, and is no longer warming up after a step at t1, once
  -- the timeout has passed between them: whatever the readiness of its namespace, from any later
  -- copy in the same phase, where the server accepts the patches.
  pub flux_warmup_ends :
      (clock : IsClock c) (timeout t0 t1 : ℤ) (o2 : FluxResource) (s2 : c.client.State)
      → c.client.flux.current s2 o2 ≡ o2
      → Accepts c.client.flux o2 s2
      → (schedule_name == "") ≡ false
      → phase_of c.parse_time schedule_name o.meta ≡ held
      → phase_of c.parse_time schedule_name o2.meta
        ≡ phase_of c.parse_time schedule_name
            (warm_flux_resource c timeout schedule_name t0 o s).object.meta
      → t0 +ℤ timeout ≤ℤ t1
      → let w = warm_flux_resource c timeout schedule_name t1 o2 s2 in
        (phase_of c.parse_time schedule_name w.object.meta ≡ free)
        × (w.object.suspend ≡ some false)
        × (w.still ≡ false)
        × IsUnmarked w.object.meta
  flux_warmup_ends clock timeout t0 t1 o2 s2 fresh2 accepts2 named h same late =
      let first =
        flux_refines c law schedule_name o s fresh accepts timeout t0 (clock.read t0)
          (clock.reads t0) named in
      let (phase, suspend, still) =
        flux_refines c law schedule_name o2 s2 fresh2 accepts2 timeout t1 (clock.read t1)
          (clock.reads t1) named in
      let waits : phase_of c.parse_time schedule_name o2.meta ≡ warming (some (clock.read t0)) =
        same ∙ first.0 ∙ ap (next_phase timeout t0 (clock.read t0) _) h in
      let over =
        timeout_lem clock timeout t0 t1
          (says_ready (check_workload_readiness c (readiness_namespace o2) s2)) late in
      (
        phase ∙ rw (waits, over) refl,
        suspend ∙ rw (waits, over) refl,
        still ∙ rw (waits, over) refl,
        over-IsUnmarked c law schedule_name o2 s2 fresh2 accepts2 timeout t1 _ named waits over,
      )

  held_lem :
      let m = write_down c o schedule_name s in
      (phase_of c.parse_time schedule_name m.object.meta ≡ held) × (m.object.suspend ≡ some true)
  unfolding answered dig String-discrete
  held_lem =
      let p = suspend_patch schedule_name in
      rw (object-patched c.client.flux o s accepts p) (
        phase-down c.parse_time schedule_name (member "suspend" (bool true) end)
            (answered_meta c law schedule_name o s fresh accepts p),
        answered_suspend c law schedule_name o s fresh accepts p
            ∙ ap (λ x. merged_bool x o.suspend) (dig_spec-build p "suspend" []),
      )

  suspended_lem :
      (phase : Phase)
      → phase_of c.parse_time schedule_name o.meta ≡ phase
      → let m = suspended_by c o schedule_name s phase in
        (phase_of c.parse_time schedule_name m.object.meta ≡ down_phase (is_suspended o) phase)
        × (m.object.suspend ≡ down_suspend o.suspend phase)
  suspended_lem foreign h = (h, refl)
  suspended_lem limbo h = held_lem
  suspended_lem (warming since) h = held_lem
  suspended_lem free h = ground (arith, held_lem)
  suspended_lem held h = ground (arith, held_lem)

  resumed_lem :
      (phase : Phase)
      → phase_of c.parse_time schedule_name o.meta ≡ phase
      → let m = resumed_by c o s phase in
        (phase_of c.parse_time schedule_name m.object.meta ≡ released_phase phase)
        × (m.object.suspend ≡ released_suspend phase o.suspend)
  resumed_lem foreign h = (h, refl)
  resumed_lem free h = (h, refl)
  resumed_lem held h = let (a, b, _) = finish_lem c law schedule_name o s fresh accepts in (a, b)
  resumed_lem limbo h = let (a, b, _) = finish_lem c law schedule_name o s fresh accepts in (a, b)
  resumed_lem (warming since) h =
      let (a, b, _) = finish_lem c law schedule_name o s fresh accepts in (a, b)

  -- On a server that accepts the patch, a downscale takes a resource to `down_phase` and
  -- `down_suspend`: what no schedule owns is suspended and held, unless its user suspended it, and
  -- another schedule's is left alone.
  pub suspend_refines :
      (schedule_name == "") ≡ false
      → let phase = phase_of c.parse_time schedule_name o.meta in
        let m = suspend_flux_resource c o schedule_name s in
        (phase_of c.parse_time schedule_name m.object.meta ≡ down_phase (is_suspended o) phase)
        × (m.object.suspend ≡ down_suspend o.suspend phase)
  suspend_refines named =
      rw (suspend-by_phase c o schedule_name s named)
        (suspended_lem (phase_of c.parse_time schedule_name o.meta) refl)

  -- On a server that accepts the patch, the resumption of a deleted schedule frees and resumes the
  -- resources of that schedule, in whatever state, and leaves all others as they were.
  pub resume_refines :
      let phase = phase_of c.parse_time schedule_name o.meta in
      let m = resume_flux_resource c o schedule_name s in
      (phase_of c.parse_time schedule_name m.object.meta ≡ released_phase phase)
      × (m.object.suspend ≡ released_suspend phase o.suspend)
  resume_refines =
      rw (resume-by_phase c o schedule_name s)
        (resumed_lem (phase_of c.parse_time schedule_name o.meta) refl)
