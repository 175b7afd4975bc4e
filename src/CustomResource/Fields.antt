-- ===== src/CustomResource/Fields.antt =====
-- `TurnCustomResourceDown`, `RestoreCustomResourceFields` and `clearCustomResourceState` of
-- internal/controller/customresource.go. Go changes the object in hand in place; where a call fails
-- before its write, that object is not read again, and here it is the one from before.
use lightsout.Base.{String, true, false, Option, none, some, List, [], ◌∷◌}
use lightsout.Base.{◌==◌, ◌!=◌, if◌then◌else◌, Result, ok, err}
use lightsout.Base.Dict.{Dict, get, insert, erase}
use lightsout.Base.Int.{ℤ}
use lightsout.Constants.{
  managed_by_label, state_label, state_down, state_warming_up, warming_up_since_annotation,
  original_fields_annotation,
}
use lightsout.Json.{Json, null, end}
use lightsout.JsonPointer.{format, parse as parse_pointer}
use lightsout.JsonPointer.Expand.{expand}
use lightsout.JsonPointer.Values.{get_value, set_value, delete_value}
use lightsout.JsonPointer.Values.Normal.{normalize_value}
use lightsout.Api.{CustomResourceConfig, FieldPatch}
use lightsout.Kube.Patch.{ObjectPatch}
use lightsout.Kube.Client.{apply_merge_patch}
use lightsout.Kube.Cluster.{Cluster}
use lightsout.GitOps.Marks.{Marked, skip, patched, owned_by_other, in_state}
use lightsout.CustomResource.Access.{CapturedField, Resources}

-- `captured[Format(path)] = capturedField{...}`
abbrev pub captured_of : Option Json → CapturedField
captured_of none = record { present = false; value = null }
captured_of (some v) = record { present = true; value = v }

-- The loop over the paths of one field.
unfoldable pub capture_paths :
    List (List String) → Json → Json → Dict CapturedField → Result (Json × Dict CapturedField)
capture_paths [] v o captured = ok (o, captured)
capture_paths (path ∷ more) v o captured =
    let (o', failure) = set_value path v o in
    let kept = insert (format path) (captured_of (get_value path o)) captured in
    let rest = capture_paths more v o' kept in elim failure [ some e ↦ err e | none ↦ rest ]

-- One field: its pointer, its value, and the paths that it matches.
unfoldable pub capture_field :
    ℤ → FieldPatch → Json → Dict CapturedField → Result (Json × Dict CapturedField)
capture_field overflowed field o captured = elim (parse_pointer field.path) [
  | err e ↦ err e
  | ok tokens ↦ elim (field.value) [
    | none ↦ err "decoding value"
    | some v ↦ capture_paths (expand o tokens) (normalize_value overflowed v) o captured
  ]
]

-- The loop over the fields of an entry.
unfoldable pub capture_fields :
    ℤ → List FieldPatch → Json → Dict CapturedField → Result (Json × Dict CapturedField)
capture_fields overflowed [] o captured = ok (o, captured)
capture_fields overflowed (field ∷ more) o captured =
    elim (capture_field overflowed field o captured) [
      | err e ↦ err e
      | ok r ↦ capture_fields overflowed more r.0 r.1
    ]

-- One captured field: written back, or removed where it did not exist.
unfoldable pub restore_field : ℤ → CapturedField → List String → Json → Json × Option String
restore_field overflowed field path o =
    if field.present
    then set_value path (normalize_value overflowed field.value) o
    else delete_value path o

-- The loop over the captured fields; Go takes them in no fixed order.
unfoldable pub restore_fields : ℤ → Dict CapturedField → Json → Result Json
restore_fields overflowed [] o = ok o
restore_fields overflowed ((pointer, field) ∷ more) o = elim (parse_pointer pointer) [
  | err e ↦ err e
  | ok path ↦
      let (o', failure) = restore_field overflowed field path o in
      let rest = restore_fields overflowed more o' in elim failure [ some e ↦ err e | none ↦ rest ]
]

abbrev pub clear_patch : ObjectPatch
clear_patch = record {
  set_labels = [];
  set_annotations = [];
  remove_annotations = original_fields_annotation ∷ warming_up_since_annotation ∷ [];
  remove_labels = state_label ∷ managed_by_label ∷ [];
  spec = end;
}

module _ (c : Cluster) (r : Resources c) where
  -- `clearCustomResourceState`
  unfoldable pub clear_custom_resource_state : Json → c.client.State → Marked c.client.State Json
  clear_custom_resource_state o s = patched o (apply_merge_patch r.endpoint o clear_patch s)

  -- The metadata that a downscale writes; labels and annotations are read after the fields.
  unfoldable pub mark_down : String → String → Json → Json
  mark_down schedule_name encoded o =
      let annotations =
        erase warming_up_since_annotation
          (insert original_fields_annotation encoded (r.meta_of o).annotations) in
      let o' = r.set_annotations annotations o in
      let labels =
        insert managed_by_label schedule_name
          (insert state_label state_down (r.meta_of o').labels) in
      r.set_labels labels o'

  -- The metadata that a restore writes.
  unfoldable pub mark_warming_up : String → Json → Json
  mark_warming_up since o =
      let annotations =
        insert warming_up_since_annotation since
          (erase original_fields_annotation (r.meta_of o).annotations) in
      let o' = r.set_annotations annotations o in
      r.set_labels (insert state_label state_warming_up (r.meta_of o').labels) o'

  abbrev write_captured :
      Json
      → String
      → Result (Json × Dict CapturedField)
      → c.client.State
      → Marked c.client.State Json
  write_captured o schedule_name (err e) s = record { skipped = err e; object = o; state = s }
  write_captured o schedule_name (ok (o', [])) s = skip o s
  write_captured o schedule_name (ok (o', field ∷ fields)) s = elim (r.encode (field ∷ fields)) [
    | err e ↦ record { skipped = err e; object = o; state = s }
    | ok encoded ↦ patched o (r.update (mark_down schedule_name encoded o') s)
  ]

  -- `TurnCustomResourceDown`
  unfoldable pub turn_custom_resource_down :
      Json → CustomResourceConfig → String → c.client.State → Marked c.client.State Json
  turn_custom_resource_down o cfg schedule_name s =
      let labels = (r.meta_of o).labels in
      if owned_by_other labels schedule_name
      then skip o s
      else if in_state state_down labels schedule_name
      then skip o s
      else write_captured o schedule_name (capture_fields r.overflowed cfg.set_fields o []) s

  abbrev cleared_as_skipped : Marked c.client.State Json → Marked c.client.State Json
  cleared_as_skipped m = record m { skipped = elim (m.skipped) [ ok _ ↦ ok true | err e ↦ err e ] }

  abbrev write_restored : Json → String → Result Json → c.client.State → Marked c.client.State Json
  write_restored o since (err e) s = record { skipped = err e; object = o; state = s }
  write_restored o since (ok o') s = patched o (r.update (mark_warming_up since o') s)

  -- `RestoreCustomResourceFields`
  unfoldable pub restore_custom_resource_fields :
      Json → String → ℤ → c.client.State → Marked c.client.State Json
  restore_custom_resource_fields o schedule_name now s =
      let m = r.meta_of o in
      let encoded = get original_fields_annotation m.annotations in
      if get managed_by_label m.labels != schedule_name
      then skip o s
      else if get state_label m.labels != state_down
      then skip o s
      else if encoded == ""
      then cleared_as_skipped (clear_custom_resource_state o s)
      else elim (r.decode encoded) [
        | err e ↦ record { skipped = err e; object = o; state = s }
        | ok captured ↦
            write_restored o (c.format_time now) (restore_fields r.overflowed captured o) s
      ]
