-- ===== src/Kube/Memory/Merge.antt =====
-- RFC 7386 on the metadata of an object.
use lightsout.Base.{
  String, ◌≡◌, refl, ◌∙◌, ap, sym, Option, none, some, List, [], ◌∷◌, ◌++◌, arith, inl, inr,
  Option-cases,
}
use lightsout.Base.{if◌then◌else◌, ◌==◌}
use lightsout.Base.Dict.{Dict, lookup, insert, erase, lookup-insert, lookup-erase}
use lightsout.Json.{Json, null, obj, Members, end, member, get_member, dig}
use lightsout.Kube.Objects.{ObjectMeta}
use lightsout.Kube.Client.{merged, MergedMeta}

unfoldable pub put_back : String → Option String → Dict String → Dict String
put_back k none d = erase k d
put_back k (some v) d = insert k v d

lookup-put_back :
    (k j : String) (o : Option String) (d : Dict String)
    → lookup j (put_back k o d) ≡ (if k == j then o else lookup j d)
unfolding put_back
lookup-put_back k j none d = lookup-erase k j d
lookup-put_back k j (some v) d = lookup-insert k j v d

get_member-end : (k : String) → get_member k end ≡ none
unfolding get_member
get_member-end k = refl

unfoldable pub merge_dict : Members → Dict String → Dict String
merge_dict end d = d
merge_dict (member k v m) d = put_back k (merged (some v) (lookup k d)) (merge_dict m d)

lookup-merge_dict :
    (k : String) (m : Members) (d : Dict String)
    → lookup k (merge_dict m d) ≡ merged (get_member k m) (lookup k d)
unfolding merge_dict get_member
lookup-merge_dict k end d = refl
lookup-merge_dict k (member j v m) d = ground (
  arith,
  lookup-put_back j k (merged (some v) (lookup j d)) (merge_dict m d),
  lookup-merge_dict k m d,
)

unfoldable pub under : Option Json → Members
under (some (obj m)) = m
under _ = end

unfoldable pub members_at : String → Json → Members
unfolding under
members_at key p = under (dig ("metadata" ∷ key ∷ []) p)

dig_one : (k : String) (p : Json) → dig (k ∷ []) p ≡ get_member k (under (some p))
unfolding under dig get_member
dig_one k null = refl
dig_one k (obj m) = ground arith
dig_one k p = refl

dig-append :
    (ks : List String) (k : String) (p : Json)
    → dig (ks ++ k ∷ []) p ≡ get_member k (under (dig ks p))
unfolding dig under
dig-append [] k p = dig_one k p
dig-append (j ∷ js) k (obj m) = elim (Option-cases (get_member j m)) [
  | inl e ↦ rw (e, dig) (sym (get_member-end k))
  | inr (v, e) ↦ rw (e, dig) (dig-append js k v)
]
dig-append (j ∷ js) k p = sym (get_member-end k)

module _ (p : Json) where
  unfoldable pub merged_meta : ObjectMeta → ObjectMeta
  merged_meta m = record m {
    labels = merge_dict (members_at "labels" p) m.labels;
    annotations = merge_dict (members_at "annotations" p) m.annotations;
  }

  pub merged_meta-MergedMeta : (m : ObjectMeta) → MergedMeta p m (merged_meta m)
  unfolding merged_meta members_at
  merged_meta-MergedMeta m = record {
    labels = λ k.
        lookup-merge_dict k _ m.labels
        ∙ ap (λ x. merged x (lookup k m.labels))
            (sym (dig-append ("metadata" ∷ "labels" ∷ []) k p));
    annotations = λ k.
        lookup-merge_dict k _ m.annotations
        ∙ ap (λ x. merged x (lookup k m.annotations))
            (sym (dig-append ("metadata" ∷ "annotations" ∷ []) k p));
    name = refl;
    namespace = refl;
  }
