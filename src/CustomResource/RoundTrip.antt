-- ===== src/CustomResource/RoundTrip.antt =====
-- What a restore puts back of the one field that a downscale captured, before its record becomes a
-- text: `captured` of internal/controller/customresource.go.
use lightsout.Base.{
  String, ◌≡◌, refl, true, none, some, List, [], ◌∷◌, inl, inr, Option-cases, ok, ==_refl,
}
use lightsout.Base.Dict.{Dict, insert, lookup, lookup-insert}
use lightsout.Base.Int.{ℤ}
use lightsout.Json.{Json}
use lightsout.JsonPointer.{format}
use lightsout.JsonPointer.RoundTrip.{nonempty, parse-format}
use lightsout.JsonPointer.Values.{get_value, set_value}
use lightsout.JsonPointer.Values.Laws.{get-set, delete-set}
use lightsout.JsonPointer.Values.Again.{set_again}
use lightsout.JsonPointer.Values.Normal.{normalize_value}
use lightsout.CustomResource.Access.{CapturedField}
use lightsout.CustomResource.Fields.{captured_of, capture_paths, restore_field, restore_fields}
use mathlib.Core.Option

-- What a restore of one captured field leaves.
restored :
    (overflowed : ℤ) (ts : List String) (v o : Json)
    → (set_value ts v o).1 ≡ none
    → (restore_field overflowed (captured_of (get_value ts o)) ts (set_value ts v o).0).1 ≡ none
      × (get_value ts
            (restore_field overflowed (captured_of (get_value ts o)) ts (set_value ts v o).0).0
          ≡ Option.map (normalize_value overflowed) (get_value ts o))
unfolding restore_field
restored overflowed ts v o h = elim (Option-cases (get_value ts o)) [
  | inl absent ↦ rw absent (let d = delete-set ts v o absent h in (d.1, d.0))
  | inr (x, e) ↦ rw e (
      let again = set_again ts v (normalize_value overflowed x) o h in
      (again, get-set ts (normalize_value overflowed x) (set_value ts v o).0 again))
]

restore_one :
    (overflowed : ℤ) (t : String) (ts : List String) (field : CapturedField) (o : Json)
    → nonempty (t ∷ ts) ≡ true
    → (restore_field overflowed field (t ∷ ts) o).1 ≡ none
    → restore_fields overflowed ((format (t ∷ ts), field) ∷ []) o
      ≡ ok (restore_field overflowed field (t ∷ ts) o).0
unfolding restore_fields
restore_one overflowed t ts field o named h =
    rw (parse-format t ts named, restore_fields) (rw (h, restore_fields) refl)

captured_one :
    (ts : List String) (v o o' : Json) (captured : Dict CapturedField)
    → capture_paths (ts ∷ []) v o [] ≡ ok (o', captured)
    → ((set_value ts v o).1 ≡ none)
      × (o' ≡ (set_value ts v o).0)
      × (captured ≡ (format ts, captured_of (get_value ts o)) ∷ [])
unfolding capture_paths insert
captured_one ts v o o' captured h = elim (Option-cases (set_value ts v o).1) [
  | inl e ↦ let k = rw (e, capture_paths) at h in (e, cc, cc)
  | inr (x, e) ↦ let k = rw (e, capture_paths) at h in cc
]

-- A single path that was captured and overwritten holds the new value, and a restore of that object
-- from the captured record itself, without its JSON text, succeeds and puts back what the field held: its value, normalized, or nothing where it was absent.
field_round_trip :
    (overflowed : ℤ) (t : String) (ts : List String) (v o o' : Json) (captured : Dict CapturedField)
    → nonempty (t ∷ ts) ≡ true
    → capture_paths ((t ∷ ts) ∷ []) v o [] ≡ ok (o', captured)
    → (get_value (t ∷ ts) o' ≡ some v)
      × (o'' : Json) × (restore_fields overflowed captured o' ≡ ok o'')
      × (get_value (t ∷ ts) o'' ≡ Option.map (normalize_value overflowed) (get_value (t ∷ ts) o))
field_round_trip overflowed t ts v o o' captured named h =
    let (written, object, fields) = captured_one (t ∷ ts) v o o' captured h in
    let (again, value) = restored overflowed (t ∷ ts) v o written in
    rw (object, fields)
      (
        get-set (t ∷ ts) v o written,
        _,
        restore_one overflowed t ts (captured_of (get_value (t ∷ ts) o)) _ named again,
        value,
      )

-- Where one path is captured twice, the record of its former value is lost: what is kept of it is
-- the value that the downscale wrote, and a restore would write that.
repeated_path_forgets :
    (ts : List String) (v o o' : Json) (captured : Dict CapturedField)
    → capture_paths (ts ∷ ts ∷ []) v o [] ≡ ok (o', captured)
    → lookup (format ts) captured ≡ some (captured_of (some v))
unfolding capture_paths
repeated_path_forgets ts v o o' captured h = elim (Option-cases (set_value ts v o).1) [
  | inr (x, e) ↦ let k = rw (e, capture_paths) at h in cc
  | inl e ↦
      let o1 = (set_value ts v o).0 in
      let first = insert (format ts) (captured_of (get_value ts o)) [] in
      let k = rw (e, capture_paths) at h in
      let k2 = rw (set_again ts v v o e, capture_paths) at k in
      let same : insert (format ts) (captured_of (get_value ts o1)) first ≡ captured = cc in
      rw
        (
          ← same,
          lookup-insert (format ts) (format ts) (captured_of (get_value ts o1)) first,
          ==_refl (format ts),
          get-set ts v o e,
        )
        refl
]
