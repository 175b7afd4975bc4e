-- ===== src/GitOps/Marks.antt =====
-- What internal/controller/argocd.go and fluxcd.go share: the state label, its owner, the
-- annotation with the start of the warm-up, and the patches that write them.
pub mod Answers
pub mod Phases
use lightsout.Base.{String, Bool, true, false, ◌&&◌, Option, none, some, List, [], ◌∷◌}
use lightsout.Base.{◌==◌, ◌!=◌, if◌then◌else◌, Result, ok, err}
use lightsout.Base.Dict.{Dict, lookup, get}
use lightsout.Base.Int.{ℤ, leb_ℤ, ◌-ℤ◌}
use lightsout.Constants.{
  managed_by_label, state_label, state_down, state_warming_up, warming_up_since_annotation,
}
use lightsout.Json.{Members}
use lightsout.Kube.Objects.{ObjectMeta}
use lightsout.Kube.Patch.{ObjectPatch}
use lightsout.Kube.Client.{Endpoint, apply_merge_patch}

-- What a marking call returns and leaves: whether it was skipped, the object and the state.
pub record Marked (S Obj : Type 0) : Type 0 where
  pub skipped : Result Bool
  pub object : Obj
  pub state : S

abbrev pub skip : {S Obj : Type 0} → Obj → S → Marked S Obj
skip o s = record { skipped = ok true; object = o; state = s }

-- The answer of a patch: on success the object becomes the server's copy.
abbrev pub patched : {S Obj : Type 0} → Obj → Result Obj × S → Marked S Obj
patched o (ok o', s) = record { skipped = ok false; object = o'; state = s }
patched o (err e, s) = record { skipped = err e; object = o; state = s }

abbrev pub has_failed : Result Bool → Bool
has_failed (ok _) = false
has_failed (err _) = true

-- What one object's part of a warm-up leaves: whether it is still warming up.
pub record Warmed (S Obj : Type 0) : Type 0 where
  pub still : Bool
  pub object : Obj
  pub state : S

-- `managedBy, exists := labels[ManagedByLabel]; exists && managedBy != scheduleName`
abbrev is_other : Option String → String → Bool
is_other none schedule_name = false
is_other (some managed_by) schedule_name = managed_by != schedule_name

unfoldable pub owned_by_other : Dict String → String → Bool
owned_by_other labels schedule_name = is_other (lookup managed_by_label labels) schedule_name

-- Whether the labels say that the schedule put the object into a state.
unfoldable pub in_state : String → Dict String → String → Bool
in_state state labels schedule_name =
    get state_label labels == state && get managed_by_label labels == schedule_name

abbrev pub down_patch : String → Members → ObjectPatch
down_patch schedule_name spec = record {
  set_labels = (state_label, state_down) ∷ (managed_by_label, schedule_name) ∷ [];
  set_annotations = [];
  remove_annotations = warming_up_since_annotation ∷ [];
  remove_labels = [];
  spec = spec;
}

abbrev pub warming_up_patch : String → String → Members → ObjectPatch
warming_up_patch schedule_name since spec = record {
  set_labels = (state_label, state_warming_up) ∷ (managed_by_label, schedule_name) ∷ [];
  set_annotations = (warming_up_since_annotation, since) ∷ [];
  remove_annotations = [];
  remove_labels = [];
  spec = spec;
}

abbrev pub release_patch : Members → ObjectPatch
release_patch spec = record {
  set_labels = [];
  set_annotations = [];
  remove_annotations = warming_up_since_annotation ∷ [];
  remove_labels = state_label ∷ managed_by_label ∷ [];
  spec = spec;
}

abbrev pub since_or_now : ℤ → Option ℤ → ℤ
since_or_now now none = now
since_or_now now (some t) = t

-- The time in the annotation, where it stands there and can be read.
unfoldable pub recorded_start : (String → Option ℤ) → Dict String → Option ℤ
recorded_start parse_time annotations = elim (lookup warming_up_since_annotation annotations) [
  | none ↦ none
  | some ts ↦ parse_time ts
]

-- When the warm-up started: `now` where the annotation is missing or malformed.
unfoldable pub warming_up_since : (String → Option ℤ) → Dict String → ℤ → ℤ
unfolding recorded_start
warming_up_since parse_time annotations now =
    since_or_now now (recorded_start parse_time annotations)

-- `now.Sub(warmingUpSince) >= warmupTimeout`
abbrev pub has_timed_out : ℤ → ℤ → ℤ → Bool
has_timed_out now since timeout = leb_ℤ timeout (now -ℤ since)
