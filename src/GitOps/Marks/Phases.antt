-- ===== src/GitOps/Marks/Phases.antt =====
-- The phase that the labels put an object into, for one schedule, and how the patches change it.
use lightsout.Base.{String, ◌≡◌, refl, Bool, true, false, not, ◌||◌, Option, none, some, arith}
use lightsout.Base.{◌==◌, if◌then◌else◌, String-discrete, ==_refl, Result, ok, err}
use lightsout.Base.Dict.{lookup, get}
use lightsout.Base.Int.{ℤ}
use lightsout.Constants.{
  managed_by_label, state_label, state_down, state_warming_up, warming_up_since_annotation,
}
use lightsout.Json.{Members}
use lightsout.Kube.Objects.{ObjectMeta}
use lightsout.Kube.Patch.{build}
use lightsout.Kube.Client.{MergedMeta, label_after, annotation_after}
use lightsout.GitOps.Marks.{
  down_patch, warming_up_patch, release_patch, since_or_now, recorded_start, has_timed_out,
  owned_by_other, in_state,
}

-- Free of any schedule, another schedule's, or this schedule's: held down, warming up since a time
-- that is known or not, or in an unknown state.
pub data Phase : Type 0 where
  free foreign held limbo : Phase
  warming : Option ℤ → Phase

abbrev pub own_phase : String → Option ℤ → Phase
own_phase state start =
    if state == state_down then held else if state == state_warming_up then warming start else limbo

abbrev pub phase_under : String → Option String → String → Option ℤ → Phase
phase_under schedule_name none state start = free
phase_under schedule_name (some owner) state start =
    if owner == schedule_name then own_phase state start else foreign

unfoldable pub phase_of : (String → Option ℤ) → String → ObjectMeta → Phase
unfolding recorded_start
phase_of parse_time schedule_name m =
    phase_under schedule_name (lookup managed_by_label m.labels) (get state_label m.labels)
      (recorded_start parse_time m.annotations)

-- Neither the label of an owner nor that of a state is there, nor the start of a warm-up.
pub record IsUnmarked (m : ObjectMeta) : Type 0 where
  pub managed_by : lookup managed_by_label m.labels ≡ none
  pub state : lookup state_label m.labels ≡ none
  pub since : lookup warming_up_since_annotation m.annotations ≡ none

-- The abstract warm-up of one object: `ready` is the readiness of its namespace, and `start` the
-- time that is read back from the annotation written now.
module _ (timeout now start : ℤ) (ready : Bool) where
  abbrev pub is_over : Option ℤ → Bool
  is_over since = has_timed_out now (since_or_now now since) timeout || ready

  abbrev pub next_phase : Phase → Phase
  next_phase free = free
  next_phase foreign = foreign
  next_phase held = warming (some start)
  next_phase limbo = warming (some start)
  next_phase (warming since) = if is_over since then free else warming since

  abbrev pub still_warming : Phase → Bool
  still_warming free = false
  still_warming foreign = false
  still_warming held = true
  still_warming limbo = true
  still_warming (warming since) = not (is_over since)

  -- Whether the object is suspended: it is resumed exactly where its warm-up is over.
  abbrev pub next_suspend : Phase → Option Bool → Option Bool
  next_suspend (warming since) old = if is_over since then some false else old
  next_suspend free old = old
  next_suspend foreign old = old
  next_suspend held old = old
  next_suspend limbo old = old

-- What the readiness check says, where a failure says that nothing is ready.
abbrev pub says_ready : Result (Bool × Bool) → Bool
says_ready (ok (ready, _)) = ready
says_ready (err _) = false

module _ (parse_time : String → Option ℤ) (schedule_name : String) {before after : ObjectMeta} where
  pub phase-down :
      (spec : Members)
      → MergedMeta (build (down_patch schedule_name spec)) before after
      → phase_of parse_time schedule_name after ≡ held
  unfolding phase_of get lookup String-discrete
  phase-down spec m =
      let p = down_patch schedule_name spec in
      rw (label_after p m managed_by_label, label_after p m state_label, ==_refl schedule_name) refl

  pub phase-warming_up :
      (spec : Members) (since : String)
      → MergedMeta (build (warming_up_patch schedule_name since spec)) before after
      → phase_of parse_time schedule_name after ≡ warming (parse_time since)
  unfolding phase_of get lookup String-discrete
  phase-warming_up spec since m =
      let p = warming_up_patch schedule_name since spec in
      rw
        (
          label_after p m managed_by_label,
          label_after p m state_label,
          annotation_after p m warming_up_since_annotation,
          ==_refl schedule_name,
          recorded_start,
        )
        refl

  pub phase-release :
      (spec : Members)
      → MergedMeta (build (release_patch spec)) before after
      → phase_of parse_time schedule_name after ≡ free
  unfolding phase_of get lookup String-discrete
  phase-release spec m = let p = release_patch spec in rw (label_after p m managed_by_label) refl

-- A released object carries no mark.
pub release-IsUnmarked :
    (spec : Members) {before after : ObjectMeta}
    → MergedMeta (build (release_patch spec)) before after
    → IsUnmarked after
unfolding lookup String-discrete
release-IsUnmarked spec m =
    let p = release_patch spec in
    record {
      managed_by = label_after p m managed_by_label;
      state = label_after p m state_label;
      since = annotation_after p m warming_up_since_annotation;
    }

pub down_is_not_warming : (state_down == state_warming_up) ≡ false
unfolding String-discrete
down_is_not_warming = refl

pub named_state : ("" == state_down) ≡ false
unfolding String-discrete
named_state = refl

module _ (parse_time : String → Option ℤ) (schedule_name : String) (m : ObjectMeta) where
  -- The guards of the transition, as the phase says them.
  pub held_guards :
      phase_of parse_time schedule_name m ≡ held
      → (owned_by_other m.labels schedule_name ≡ false)
        × (in_state state_warming_up m.labels schedule_name ≡ false)
  unfolding phase_of owned_by_other in_state
  held_guards h = ground (arith, down_is_not_warming)

  pub limbo_guards :
      phase_of parse_time schedule_name m ≡ limbo
      → (owned_by_other m.labels schedule_name ≡ false)
        × (in_state state_warming_up m.labels schedule_name ≡ false)
  unfolding phase_of owned_by_other in_state
  limbo_guards h = ground arith
