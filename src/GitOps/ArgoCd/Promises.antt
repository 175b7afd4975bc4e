-- ===== src/GitOps/ArgoCd/Promises.antt =====
-- What labelling and the warm-up of an Application amount to, as moves of its phase.
use lightsout.Base.{
  String, ◌≡◌, refl, ◌∙◌, ap, Bool, true, false, ◌||◌, Option, some, arith, inl, inr,
}
use lightsout.Base.{◌==◌, Bool-cases}
use lightsout.Base.Dict.{get}
use lightsout.Base.Int.{ℤ}
use lightsout.Constants.{state_label, state_down, state_warming_up}
use lightsout.Kube.Objects.{App, ObjectMeta}
use lightsout.Kube.Client.{IsMergePatch}
use lightsout.Kube.Cluster.{Cluster}
use lightsout.GitOps.Marks.{has_failed, recorded_start, owned_by_other, in_state}
use lightsout.GitOps.Marks.Answers.{Accepts}
use lightsout.GitOps.Marks.Phases.{
  Phase, free, foreign, held, limbo, warming, phase_of, next_phase, still_warming, is_over,
  held_guards, named_state,
}
use lightsout.GitOps.ArgoCd.{label_argo_cd_app_down, warm_argo_cd_app}
use lightsout.GitOps.ArgoCd.Machine.{
  destination_ready, begin_lem, finish_lem, down_lem, warm_down, warm_over, warm_on,
}

-- Held or warming up under the schedule.
abbrev pub is_marked : Phase → Bool
is_marked free = false
is_marked foreign = false
is_marked limbo = false
is_marked held = true
is_marked (warming since) = true

abbrev pub labelled_phase : Phase → Phase
labelled_phase foreign = foreign
labelled_phase _ = held

-- To be marked by a downscale: neither held yet nor another schedule's.
abbrev is_open : Phase → Bool
is_open free = true
is_open limbo = true
is_open (warming since) = true
is_open held = false
is_open foreign = false

module _ (parse_time : String → Option ℤ) (schedule_name : String) (m : ObjectMeta) where
  held_label : phase_of parse_time schedule_name m ≡ held → get state_label m.labels ≡ state_down
  unfolding phase_of
  held_label h = ground arith

  warming_label :
      (since : Option ℤ)
      → phase_of parse_time schedule_name m ≡ warming since
      → (get state_label m.labels ≡ state_warming_up)
        × (recorded_start parse_time m.annotations ≡ since)
  unfolding phase_of
  warming_label since h = ground arith

  foreign_owner :
      phase_of parse_time schedule_name m ≡ foreign → owned_by_other m.labels schedule_name ≡ true
  unfolding phase_of owned_by_other
  foreign_owner h = ground arith

  -- What the two guards of the labelling say, by the phase.
  held_guard :
      phase_of parse_time schedule_name m ≡ held → in_state state_down m.labels schedule_name ≡ true
  unfolding phase_of in_state get
  held_guard h = ground arith

  open_guards :
      (schedule_name == "") ≡ false
      → is_open (phase_of parse_time schedule_name m) ≡ true
      → (owned_by_other m.labels schedule_name ≡ false)
        × (in_state state_down m.labels schedule_name ≡ false)
  unfolding phase_of owned_by_other in_state get
  open_guards named h = ground (arith, named_state)

label_down_skips :
    (c : Cluster) (schedule_name : String) (o : App) (s : c.client.State)
    → (owned_by_other o.meta.labels schedule_name
        || in_state state_down o.meta.labels schedule_name)
      ≡ true
    → (label_argo_cd_app_down c o schedule_name s).object ≡ o
unfolding label_argo_cd_app_down
label_down_skips c schedule_name o s h = ground arith

module _ (c : Cluster) (law : IsMergePatch c.client) (schedule_name : String) (o : App)
    (s : c.client.State) (fresh : c.client.apps.current s o ≡ o)
    (accepts : Accepts c.client.apps o s) where
  by_phase :
      (timeout now start : ℤ)
      → c.parse_time (c.format_time now) ≡ some start
      → (phase : Phase) → phase_of c.parse_time schedule_name o.meta ≡ phase
      → is_marked phase ≡ true
      → let ready = destination_ready c o s in
        let w = warm_argo_cd_app c timeout schedule_name now o s in
        (phase_of c.parse_time schedule_name w.object.meta
          ≡ next_phase timeout now start ready phase)
        × (w.still ≡ still_warming timeout now start ready phase)
  by_phase timeout now start reads free h m = cc
  by_phase timeout now start reads foreign h m = cc
  by_phase timeout now start reads limbo h m = cc
  by_phase timeout now start reads held h m =
      let (mine, settled) = held_guards c.parse_time schedule_name o.meta h in
      rw
        (warm_down c law schedule_name o s fresh accepts timeout now
          (held_label c.parse_time schedule_name o.meta h))
        (begin_lem c law schedule_name o s fresh accepts now mine settled ∙ ap warming reads, refl)
  by_phase timeout now start reads (warming since) h m =
      let (label, recorded) = warming_label c.parse_time schedule_name o.meta since h in
      let (freed, done) = finish_lem c law schedule_name o s fresh accepts in
      elim (Bool-cases (is_over timeout now start (destination_ready c o s) since)) [
        | inl over ↦
            rw
              (
                warm_over c law schedule_name o s fresh accepts timeout now label
                    (rw recorded over),
                over,
              )
              (freed, ap has_failed done)
        | inr on ↦
            rw
              (warm_on c law schedule_name o s fresh accepts timeout now label (rw recorded on), on)
              (h, refl)
      ]

  -- On a server that accepts the patch, the loop of `handleArgoCDWarmup` takes an Application that
  -- is held by the schedule or warming up under it through the abstract warm-up: its phase and the
  -- answer whether it is still warming up are those of `next_phase` and `still_warming`. An
  -- Application without a destination namespace is ready by its timeout alone.
  pub app_refines :
      (timeout now start : ℤ)
      → c.parse_time (c.format_time now) ≡ some start
      → is_marked (phase_of c.parse_time schedule_name o.meta) ≡ true
      → let phase = phase_of c.parse_time schedule_name o.meta in
        let ready = destination_ready c o s in
        let w = warm_argo_cd_app c timeout schedule_name now o s in
        (phase_of c.parse_time schedule_name w.object.meta
          ≡ next_phase timeout now start ready phase)
        × (w.still ≡ still_warming timeout now start ready phase)
  app_refines timeout now start reads marked =
      by_phase timeout now start reads (phase_of c.parse_time schedule_name o.meta) refl marked

  -- The warm-up of one schedule completes an Application that is warming up under another: where
  -- the other's timeout has passed or the namespace is ready, the owner's labels are removed.
  foreign_app_completed :
      (timeout now : ℤ)
      → phase_of c.parse_time schedule_name o.meta ≡ foreign
      → get state_label o.meta.labels ≡ state_warming_up
      → is_over timeout now now
          (destination_ready c o s)
          (recorded_start c.parse_time o.meta.annotations)
        ≡ true
      → let w = warm_argo_cd_app c timeout schedule_name now o s in
        (phase_of c.parse_time schedule_name w.object.meta ≡ free) × (w.still ≡ false)
  foreign_app_completed timeout now h label over =
      let (freed, done) = finish_lem c law schedule_name o s fresh accepts in
      rw (warm_over c law schedule_name o s fresh accepts timeout now label over)
        (freed, ap has_failed done)

  labelled_open :
      (schedule_name == "") ≡ false
      → is_open (phase_of c.parse_time schedule_name o.meta) ≡ true
      → phase_of c.parse_time schedule_name (label_argo_cd_app_down c o schedule_name s).object.meta
        ≡ held
  labelled_open named h =
      let (mine, settled) = open_guards c.parse_time schedule_name o.meta named h in
      down_lem c law schedule_name o s fresh accepts mine settled

  labelled_lem :
      (schedule_name == "") ≡ false
      → (phase : Phase) → phase_of c.parse_time schedule_name o.meta ≡ phase
      → phase_of c.parse_time schedule_name (label_argo_cd_app_down c o schedule_name s).object.meta
        ≡ labelled_phase phase
  labelled_lem named held h =
      rw
        (label_down_skips c schedule_name o s
          (ground (arith, held_guard c.parse_time schedule_name o.meta h)))
        h
  labelled_lem named foreign h =
      rw
        (label_down_skips c schedule_name o s
          (ground (arith, foreign_owner c.parse_time schedule_name o.meta h)))
        h
  labelled_lem named free h = labelled_open named (rw h refl)
  labelled_lem named limbo h = labelled_open named (rw h refl)
  labelled_lem named (warming since) h = labelled_open named (rw h refl)

  -- On a server that accepts the patch, a downscale marks an Application as held by the schedule,
  -- whatever its state, unless another schedule owns it; then it is left alone. The name of the
  -- schedule is not empty.
  pub app_down_refines :
      (schedule_name == "") ≡ false
      → let phase = phase_of c.parse_time schedule_name o.meta in
        phase_of c.parse_time schedule_name (label_argo_cd_app_down c o schedule_name s).object.meta
        ≡ labelled_phase phase
  app_down_refines named = labelled_lem named (phase_of c.parse_time schedule_name o.meta) refl
