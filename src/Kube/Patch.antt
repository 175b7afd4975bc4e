-- ===== src/Kube/Patch.antt =====
-- internal/controller/patch.go: the merge patches that the controller sends.
pub mod Build
use lightsout.Base.{String, ◌≡◌, refl, Bool, true, false, Option, none, some, List, [], ◌∷◌, arith}
use lightsout.Base.{◌==◌, if◌then◌else◌, contains}
use lightsout.Base.Dict.{Dict, lookup}
use lightsout.Json.{
  Json, null, str, obj, Members, end, member, get_member, set_member, get_member-set_member, dig,
}
use mathlib.Core.Option

-- `objectPatch`
pub record ObjectPatch : Type 0 where
  pub set_labels : Dict String
  pub set_annotations : Dict String
  pub remove_annotations : List String
  pub remove_labels : List String
  pub spec : Members

-- The keys to write. Go visits a map in no fixed order; the order does not matter to a lookup.
write_keys : Dict String → Members
write_keys [] = end
write_keys ((k, v) ∷ d) = set_member k (str v) (write_keys d)

null_keys : List String → Members → Members
null_keys [] m = m
null_keys (k ∷ ks) m = set_member k null (null_keys ks m)

-- `mergeKeys`
unfoldable pub merge_keys : Dict String → List String → Members
unfolding write_keys null_keys set_member
merge_keys set remove = null_keys remove (write_keys set)

-- A member is written only if the object under it holds something.
put_nonempty : String → Members → Members → Members
put_nonempty k end m = m
put_nonempty k (member j v r) m = set_member k (obj (member j v r)) m

-- `objectPatch.build`
unfoldable pub build : ObjectPatch → Json
unfolding put_nonempty merge_keys
build p =
    let labels = merge_keys p.set_labels p.remove_labels in
    let annotations = merge_keys p.set_annotations p.remove_annotations in
    let metadata = put_nonempty "annotations" annotations (put_nonempty "labels" labels end) in
    obj (put_nonempty "spec" p.spec (put_nonempty "metadata" metadata end))

-- What a patch asks for a label or an annotation: nothing, a new value, or its removal.
abbrev pub label_change : String → Json → Option Json
label_change k = dig ("metadata" ∷ "labels" ∷ k ∷ [])

abbrev pub annotation_change : String → Json → Option Json
annotation_change k = dig ("metadata" ∷ "annotations" ∷ k ∷ [])

abbrev pub spec_change : String → Json → Option Json
spec_change k = dig ("spec" ∷ k ∷ [])

-- The change that a pair of keys to write and keys to remove stands for.
abbrev pub asked : Dict String → List String → String → Option Json
asked set remove k = if contains remove k then some null else Option.map str (lookup k set)

get_member-write_keys :
    (k : String) (d : Dict String) → get_member k (write_keys d) ≡ Option.map str (lookup k d)
unfolding write_keys get_member lookup
get_member-write_keys k [] = refl
get_member-write_keys k ((j, v) ∷ d) =
    ground (arith, get_member-set_member j k (str v) (write_keys d), get_member-write_keys k d)

get_member-null_keys :
    (k : String) (ks : List String) (m : Members)
    → get_member k (null_keys ks m) ≡ (if contains ks k then some null else get_member k m)
unfolding null_keys
get_member-null_keys k [] m = refl
get_member-null_keys k (j ∷ ks) m =
    ground (arith, get_member-set_member j k null (null_keys ks m), get_member-null_keys k ks m)

-- `mergeKeys` maps a key to null if it is to be removed, else to its new value if it has one.
pub get_member-merge_keys :
    (set : Dict String) (remove : List String) (k : String)
    → get_member k (merge_keys set remove) ≡ asked set remove k
unfolding merge_keys
get_member-merge_keys set remove k =
    ground (arith, get_member-null_keys k remove (write_keys set), get_member-write_keys k set)
