-- ===== src/Scaler/Hpa.antt =====
-- internal/controller/hpa.go: an HPA that targets a workload is kept from scaling it up again.
pub mod RoundTrip
use lightsout.Base.{String, Bool, ◌&&◌, Option, none, some, List, [], ◌∷◌, Result, ok, err}
use lightsout.Base.{◌==◌, ◌!=◌, if◌then◌else◌}
use lightsout.Base.Dict.{lookup, get}
use lightsout.Constants.{managed_by_annotation, original_hpa_scale_up_policy_annotation}
use lightsout.Json.{Json, null, str, obj, Members, end, member}
use lightsout.Kube.Objects.{Hpa, HpaList}
use lightsout.Kube.Patch.{ObjectPatch}
use lightsout.Kube.Client.{Client, apply_merge_patch}

abbrev pub hpa_scale_up_disabled : String
hpa_scale_up_disabled = "Disabled"

abbrev pub targets : String → String → Hpa → Bool
targets kind name h = h.target_kind == kind && h.target_name == name

first_target : String → String → List Hpa → Option Hpa
first_target kind name [] = none
first_target kind name (h ∷ hs) = if targets kind name h then some h else first_target kind name hs

-- `findHPA`
unfoldable pub find_hpa : HpaList → String → String → Option Hpa
unfolding first_target
find_hpa none kind name = none
find_hpa (some hs) kind name = first_target kind name hs

replace_first : String → String → Hpa → List Hpa → List Hpa
replace_first kind name h' [] = []
replace_first kind name h' (h ∷ hs) =
    if targets kind name h then h' ∷ hs else h ∷ replace_first kind name h' hs

-- `findHPA` returns a pointer into the list, so a patch changes the entry in place.
unfoldable pub write_hpa : HpaList → String → String → Hpa → HpaList
unfolding replace_first
write_hpa none kind name h' = none
write_hpa (some hs) kind name h' = some (replace_first kind name h' hs)

-- `scaleUpPolicySpec`
unfoldable pub scale_up_policy_spec : Json → Members
scale_up_policy_spec policy =
    member "behavior" (obj (member "scaleUp" (obj (member "selectPolicy" policy end)) end)) end

abbrev pub downscale_patch : String → String → ObjectPatch
downscale_patch current schedule_name = record {
  set_labels = [];
  set_annotations =
      (original_hpa_scale_up_policy_annotation, current)
      ∷ (managed_by_annotation, schedule_name)
      ∷ [];
  remove_annotations = [];
  remove_labels = [];
  spec = scale_up_policy_spec (str hpa_scale_up_disabled);
}

abbrev pub original_policy : String → Json
original_policy p = if p == "" then null else str p

abbrev pub restore_patch : String → ObjectPatch
restore_patch policy = record {
  set_labels = [];
  set_annotations = [];
  remove_annotations = original_hpa_scale_up_policy_annotation ∷ managed_by_annotation ∷ [];
  remove_labels = [];
  spec = scale_up_policy_spec (original_policy policy);
}

module _ (c : Client) where
  -- The error, the list and the cluster after a call.
  abbrev pub HpaOutcome : Type 0
  HpaOutcome = Result (Unit {0}) × HpaList × c.State

  abbrev unchanged : HpaList → c.State → HpaOutcome
  unchanged hpas s = (ok tt, hpas, s)

  abbrev pub write_back : HpaList → String → String → Result Hpa × c.State → HpaOutcome
  write_back hpas kind name (ok h', s) = (ok tt, write_hpa hpas kind name h', s)
  write_back hpas kind name (err e, s) = (err e, hpas, s)

  -- The part of `PatchHPAForDownscale` after the HPA is found.
  disable_scale_up : Hpa → HpaList → String → String → String → c.State → HpaOutcome
  disable_scale_up h hpas kind name schedule_name s =
      let managed_by = get managed_by_annotation h.meta.annotations in
      if managed_by != "" && managed_by != schedule_name
      then unchanged hpas s
      else if managed_by == schedule_name
      then unchanged hpas s
      else if h.select_policy == hpa_scale_up_disabled
      then unchanged hpas s
      else write_back hpas kind name
          (apply_merge_patch c.hpas h (downscale_patch h.select_policy schedule_name) s)

  -- `PatchHPAForDownscale`
  unfoldable pub patch_hpa_for_downscale : HpaList → String → String → String → c.State → HpaOutcome
  unfolding disable_scale_up
  patch_hpa_for_downscale hpas kind name schedule_name s = elim (find_hpa hpas kind name) [
    | none ↦ unchanged hpas s
    | some h ↦ disable_scale_up h hpas kind name schedule_name s
  ]

  -- The part of `RestoreHPA` after the HPA is found.
  enable_scale_up : Hpa → HpaList → String → String → String → c.State → HpaOutcome
  enable_scale_up h hpas kind name schedule_name s =
      let managed_by = get managed_by_annotation h.meta.annotations in
      if managed_by == ""
      then unchanged hpas s
      else if managed_by != schedule_name
      then unchanged hpas s
      else elim (lookup original_hpa_scale_up_policy_annotation h.meta.annotations) [
        | none ↦ unchanged hpas s
        | some policy ↦
            write_back hpas kind name (apply_merge_patch c.hpas h (restore_patch policy) s)
      ]

  -- `RestoreHPA`
  unfoldable pub restore_hpa : HpaList → String → String → String → c.State → HpaOutcome
  unfolding enable_scale_up
  restore_hpa hpas kind name schedule_name s = elim (find_hpa hpas kind name) [
    | none ↦ unchanged hpas s
    | some h ↦ enable_scale_up h hpas kind name schedule_name s
  ]
