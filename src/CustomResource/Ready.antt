-- ===== src/CustomResource/Ready.antt =====
-- `customResourceReady` and `matchesReadyWhen` of internal/controller/customresource.go: what the
-- operator itself says of a resource.
use lightsout.Base.{
  ℕ, suc, ◌*◌, ◌^◌, ◌+◌, String, Bool, true, false, not, ◌&&◌, Option, none, some, List, [], ◌∷◌,
}
use lightsout.Base.{◌==◌, if◌then◌else◌, eqb, ok, err}
use lightsout.Base.Int.{ℤ, pos, negsuc, eqb_ℤ, ltb_ℤ}
use lightsout.Json.{
  Json, null, bool, int, float, str, arr, obj, Elems, nil, cons, Members, end, member, get_member,
}
use lightsout.JsonPointer.{parse as parse_pointer}
use lightsout.JsonPointer.Expand.{expand}
use lightsout.JsonPointer.Values.{get_value}
use lightsout.JsonPointer.Values.Normal.{normalize_value}
use lightsout.Api.{CustomResourceConfig, FieldMatch}
use lightsout.Kube.Cluster.{Cluster}
use lightsout.Webhook.Fields.{is_empty}
use lightsout.CustomResource.Access.{Resources}

abbrev same_bool : Bool → Bool → Bool
same_bool true b = b
same_bool false b = not b

-- m / 2^e and n / 2^f
abbrev same_float : ℤ → ℕ → ℤ → ℕ → Bool
same_float (pos m) e (pos n) f = eqb (m * 2 ^ f) (n * 2 ^ e)
same_float (negsuc m) e (negsuc n) f = eqb ((m + 1) * 2 ^ f) ((n + 1) * 2 ^ e)
same_float _ e _ f = false

count_members : Members → ℕ
count_members end = 0
count_members (member k v m) = suc (count_members m)

-- `reflect.DeepEqual` on decoded values; of two maps the sizes and the values under each key count.
unfoldable mutual
  unfolding count_members

  pub deep_equal : Json → Json → Bool
  deep_equal null null = true
  deep_equal (bool a) (bool b) = same_bool a b
  deep_equal (int a) (int b) = eqb_ℤ a b
  deep_equal (float m e) (float n f) = same_float m e n f
  deep_equal (str a) (str b) = a == b
  deep_equal (arr a) (arr b) = elems_equal a b
  deep_equal (obj a) (obj b) = eqb (count_members a) (count_members b) && members_equal a b
  deep_equal _ _ = false

  pub elems_equal : Elems → Elems → Bool
  elems_equal nil nil = true
  elems_equal (cons a as') (cons b bs) = deep_equal a b && elems_equal as' bs
  elems_equal _ _ = false

  pub members_equal : Members → Members → Bool
  members_equal end b = true
  members_equal (member k v m) b =
      (elim (get_member k b) [ none ↦ false | some w ↦ deep_equal v w ]) && members_equal m b

-- The loop over the paths of one match.
unfoldable pub all_equal : Json → Json → List (List String) → Bool
all_equal o want [] = true
all_equal o want (path ∷ more) =
    (elim (get_value path o) [ none ↦ false | some got ↦ deep_equal got want ])
    && all_equal o want more

unfoldable pub match_holds : ℤ → Json → FieldMatch → Bool
match_holds overflowed o field = elim (parse_pointer field.path) [
  | err e ↦ false
  | ok tokens ↦ elim (field.value) [
    | none ↦ false
    | some v ↦
        let paths = expand o tokens in
        not (is_empty paths) && all_equal o (normalize_value overflowed v) paths
  ]
]

-- `matchesReadyWhen`
unfoldable pub matches_ready_when : ℤ → Json → List FieldMatch → Bool
matches_ready_when overflowed o [] = true
matches_ready_when overflowed o (field ∷ more) =
    match_holds overflowed o field && matches_ready_when overflowed o more

-- `condition["type"] != "Ready"`
abbrev is_ready_type : Option Json → Bool
is_ready_type (some (str type)) = type == "Ready"
is_ready_type _ = false

abbrev is_true : Option Json → Bool
is_true (some (str status)) = status == "True"
is_true _ = false

unfoldable pub ready_condition : Elems → Option Bool
ready_condition nil = none
ready_condition (cons (obj m) es) =
    let rest = ready_condition es in
    if is_ready_type (get_member "type" m) then some (is_true (get_member "status" m)) else rest
ready_condition (cons _ es) = ready_condition es

module _ (c : Cluster) (r : Resources c) where
  -- The generation that the operator has acted on is older than that of the object.
  abbrev is_stale : Json → Bool
  is_stale o = elim (r.nested_int64 o ("status" ∷ "observedGeneration" ∷ [])) [
    | none ↦ false
    | some seen ↦ ltb_ℤ seen (r.meta_of o).generation
  ]

  -- `customResourceReady`: `none` where the operator reports nothing.
  unfoldable pub custom_resource_ready : Json → CustomResourceConfig → Option Bool
  custom_resource_ready o cfg =
      if not (is_empty cfg.ready_when)
      then some (matches_ready_when r.overflowed o cfg.ready_when)
      else if is_stale o
      then some false
      else elim (r.nested_slice o ("status" ∷ "conditions" ∷ [])) [
        | none ↦ none
        | some conditions ↦ ready_condition conditions
      ]
