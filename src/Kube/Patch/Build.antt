-- ===== src/Kube/Patch/Build.antt =====
-- What the JSON of a patch says of each label, annotation and field of the spec.
use lightsout.Base.{
  String, ◌≡◌, refl, ◌∙◌, sym, inl, inr, Option-cases, false, none, some, List, [], ◌∷◌, arith,
}
use lightsout.Base.{◌==◌, ==_refl, String-discrete}
use lightsout.Json.{
  Json, obj, Members, end, member, get_member, set_member, get_member-set_member, dig,
}
use lightsout.Kube.Patch.{
  ObjectPatch, put_nonempty, build, label_change, annotation_change, asked, get_member-merge_keys,
}

dig_of_absent :
    (k : String) (ks : List String) (m : Members)
    → get_member k m ≡ none
    → dig (k ∷ ks) (obj m) ≡ none
unfolding dig
dig_of_absent k ks m h = rw (h, dig)

dig_of_present :
    (k : String) (ks : List String) (m : Members) {v : Json}
    → get_member k m ≡ some v
    → dig (k ∷ ks) (obj m) ≡ dig ks v
unfolding dig
dig_of_present k ks m h = rw (h, dig)

get_member-end : (k : String) → get_member k end ≡ none
unfolding get_member
get_member-end k = refl

get_member-set_self :
    (k : String) (v : Json) (m : Members) → get_member k (set_member k v m) ≡ some v
get_member-set_self k v m = ground (arith, get_member-set_member k k v m, ==_refl k)

-- Under its own key a member shows what it holds, and nothing if it holds nothing.
dig-put_self :
    (k j : String) (js : List String) (inner m : Members)
    → get_member k m ≡ none
    → dig (k ∷ j ∷ js) (obj (put_nonempty k inner m)) ≡ dig (j ∷ js) (obj inner)
unfolding put_nonempty
dig-put_self k j js end m h =
    rw (dig_of_absent k (j ∷ js) m h, dig_of_absent j js end (get_member-end j))
dig-put_self k j js (member i v r) m h =
    dig_of_present k (j ∷ js) _ (get_member-set_self k (obj (member i v r)) m)

get_member-put_ne :
    (k j : String) (inner m : Members)
    → (k == j) ≡ false
    → get_member j (put_nonempty k inner m) ≡ get_member j m
unfolding put_nonempty
get_member-put_ne k j end m h = refl
get_member-put_ne k j (member i v r) m h =
    ground (arith, get_member-set_member k j (obj (member i v r)) m)

dig-put_ne :
    (k j : String) (js : List String) (inner m : Members)
    → (k == j) ≡ false
    → dig (j ∷ js) (obj (put_nonempty k inner m)) ≡ dig (j ∷ js) (obj m)
unfolding dig
dig-put_ne k j js inner m h = rw (get_member-put_ne k j inner m h, dig)

dig-one : (k : String) (m : Members) → dig (k ∷ []) (obj m) ≡ get_member k m
unfolding dig
dig-one k m = elim (Option-cases (get_member k m)) [
  | inl e ↦ dig_of_absent k [] m e ∙ sym e
  | inr (v, e) ↦ dig_of_present k [] m e ∙ sym e
]

-- A built patch says of each label what was asked for it.
pub label_change-build :
    (p : ObjectPatch) (k : String) → label_change k (build p) ≡ asked p.set_labels p.remove_labels k
unfolding build String-discrete
label_change-build p k =
    dig-put_ne "spec" "metadata" ("labels" ∷ k ∷ []) p.spec _ refl
    ∙ dig-put_self "metadata" "labels" (k ∷ []) _ end (get_member-end _)
    ∙ dig-put_ne "annotations" "labels" (k ∷ []) _ _ refl
    ∙ dig-put_self "labels" k [] _ end (get_member-end _)
    ∙ dig-one k _
    ∙ get_member-merge_keys p.set_labels p.remove_labels k

-- A built patch says of each annotation what was asked for it.
pub annotation_change-build :
    (p : ObjectPatch) (k : String)
    → annotation_change k (build p) ≡ asked p.set_annotations p.remove_annotations k
unfolding build String-discrete
annotation_change-build p k =
    dig-put_ne "spec" "metadata" ("annotations" ∷ k ∷ []) p.spec _ refl
    ∙ dig-put_self "metadata" "annotations" (k ∷ []) _ end (get_member-end _)
    ∙ dig-put_self "annotations" k [] _ _
        (get_member-put_ne "labels" "annotations" _ end refl ∙ get_member-end _)
    ∙ dig-one k _
    ∙ get_member-merge_keys p.set_annotations p.remove_annotations k

-- A built patch holds the fields of the spec as they were given.
pub dig_spec-build :
    (p : ObjectPatch) (k : String) (ks : List String)
    → dig ("spec" ∷ k ∷ ks) (build p) ≡ dig (k ∷ ks) (obj p.spec)
unfolding build String-discrete
dig_spec-build p k ks =
    dig-put_self "spec" k ks p.spec _
      (get_member-put_ne "metadata" "spec" _ end refl ∙ get_member-end _)
