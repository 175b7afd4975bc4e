-- ===== src/Tests/CustomResources.antt =====
-- Custom resources on a small server.
use lightsout.Base.{
  ◌*◌, String, ◌≡◌, refl, ap, false, Option, none, some, [], ◌∷◌, Option-cases, inl, inr,
  String-discrete, Result, ok, err,
}
use lightsout.Base.Dict.{Dict, lookup, get, insert, erase}
use lightsout.Base.Int.{pos, ◌-ℤ◌, ◌+ℤ◌}
use lightsout.Base.Decimal.{itoa, parse_int}
use lightsout.Base.Names.{sort_names}
use lightsout.Constants.{
  managed_by_label, state_label, state_warming_up, warming_up_since_annotation,
  default_warmup_timeout, second,
}
use lightsout.Json.{
  Json, str, int, obj, arr, cons, nil, Members, end, member, get_member, set_member, delete_member,
  dig,
}
use lightsout.JsonPointer.{parse, format, replace_char, replace_pair, split, parse_parts}
use lightsout.JsonPointer.RoundTrip.{nonempty}
use lightsout.JsonPointer.Expand.{expand, walk_pointer, each_key, each_element, member_keys}
use lightsout.JsonPointer.Values.{get_value, set_value, element, nth, set_nth, delete_value}
use lightsout.JsonPointer.Values.Normal.{normalize_value, normalize_float}
use lightsout.Api.{CustomResourceConfig}
use lightsout.Kube.Objects.{ObjectMeta}
use lightsout.Kube.Patch.{build}
use lightsout.Kube.Client.{apply_merge_patch}
use lightsout.Kube.Cluster.{Cluster, listed}
use lightsout.Kube.Memory.{
  memory_client, running, put_back, merge_dict, under, members_at, merged_meta,
  merged_meta-MergedMeta,
}
use lightsout.GitOps.Readiness.{
  scan, ready_condition, pod_counts_for_readiness, check_pods, check_stateful_sets,
  check_workload_readiness,
}
use lightsout.GitOps.Marks.{recorded_start, warming_up_since}
use lightsout.GitOps.Marks.Answers.{Accepts}
use lightsout.GitOps.Marks.Phases.{free, phase_of}
use lightsout.CustomResource.Access.{Resources, IsMetaPatch, deleted}
use lightsout.CustomResource.Fields.{
  capture_paths, restore_field, restore_fields, clear_custom_resource_state,
}
use lightsout.CustomResource.Ready.{custom_resource_ready}
use lightsout.CustomResource.Warmup.{namespace_ready, warm_custom_resource}
use lightsout.CustomResource.Laws.{IsCleared, custom_resource_refines}
use lightsout.Tests.Clock.{write_time, read_time, strokes, count_strokes}
use lightsout.Tests.GitOps.{flux_cluster}

-- The labels, the annotations and the rest of a resource, which stand in this order.
abbrev view : Json → Option (Members × Members × Members)
view (obj (member _ (obj labels) (member _ (obj annotations) rest))) =
    some (labels, annotations, rest)
view _ = none

to_dict : Members → Dict String
to_dict end = []
to_dict (member k (str v) m) = (k, v) ∷ to_dict m
to_dict (member k _ m) = to_dict m

of_dict : Dict String → Members
of_dict [] = end
of_dict ((k, v) ∷ d) = member k (str v) (of_dict d)

to_dict-of_dict : (d : Dict String) → to_dict (of_dict d) ≡ d
unfolding to_dict of_dict
to_dict-of_dict [] = refl
to_dict-of_dict ((k, v) ∷ d) = ap (λ e. (k, v) ∷ e) (to_dict-of_dict d)

abbrev database : Dict String → Dict String → Members → Json
database labels annotations rest =
    obj (
      member "labels" (obj (of_dict labels))
        (member "annotations" (obj (of_dict annotations)) rest))

meta_from : Option (Members × Members × Members) → ObjectMeta
meta_from v = record {
  name = "db";
  namespace = "team";
  labels = elim v [ none ↦ [] | some x ↦ to_dict x.0 ];
  annotations = elim v [ none ↦ [] | some x ↦ to_dict x.1 ];
  owner_references = [];
  generation = pos 2;
}

patch_database : {S : Type 0} → Json → Json → S → Result Json × S
patch_database o p s = elim (view o) [
  | none ↦ (err "not a database", s)
  | some x ↦
      let m = merged_meta p (meta_from (view o)) in (ok (database m.labels m.annotations x.2), s)
]

abbrev databases : (c : Cluster) → Resources c
databases c = record {
  endpoint = record { current = λ s o. o; patch = patch_database };
  list_resources = λ cfg ns s. listed [];
  update = λ o s. (ok o, s);
  delete_resource = λ o s. (deleted, s);
  meta_of = λ o. meta_from (view o);
  set_labels = λ d o. o;
  set_annotations = λ d o. o;
  nested_int64 = λ o path. none;
  nested_slice = λ o path. none;
  encode = λ fields. ok "fields";
  decode = λ text. ok [];
  overflowed = pos 0;
}

view-database :
    (labels annotations : Dict String) (rest : Members)
    → meta_from (view (database labels annotations rest)) ≡ record {
      name = "db";
      namespace = "team";
      labels = labels;
      annotations = annotations;
      owner_references = [];
      generation = pos 2;
    }
unfolding meta_from
view-database labels annotations rest =
    rw (to_dict-of_dict labels, to_dict-of_dict annotations) refl

databases-IsMetaPatch : (c : Cluster) → IsMetaPatch c (databases c)
unfolding patch_database merged_meta meta_from
databases-IsMetaPatch c o o' p s s' h = elim (Option-cases (view o)) [
  | inl e ↦ let k = rw (e, patch_database) at h in cc
  | inr (x, e) ↦
      let m = merged_meta p (meta_from (view o)) in
      let k = rw (e, patch_database) at h in
      let same : database m.labels m.annotations x.2 ≡ o' = cc in
      rw (← same, view-database m.labels m.annotations x.2)
        (merged_meta-MergedMeta p (meta_from (view o)))
]

-- One name for all that a run of the integration computes through.
run_resources : Unit {0}
unfolding String-discrete lookup get insert erase itoa parse_int sort_names get_member set_member
    delete_member dig parse format replace_char replace_pair split parse_parts expand walk_pointer
    each_key each_element member_keys get_value set_value element nth set_nth delete_value
    normalize_value normalize_float build apply_merge_patch memory_client running put_back
    merge_dict under members_at merged_meta scan ready_condition pod_counts_for_readiness check_pods
    check_stateful_sets check_workload_readiness recorded_start warming_up_since phase_of
    capture_paths restore_field restore_fields clear_custom_resource_state custom_resource_ready
    namespace_ready warm_custom_resource write_time read_time strokes count_strokes ◌-ℤ◌ ◌+ℤ◌
    to_dict of_dict meta_from patch_database nonempty
run_resources = tt

abbrev entry : CustomResourceConfig
entry = record {
  group = "postgresql.cnpg.io";
  version = "v1";
  kind = "Cluster";
  name = "";
  match_labels = [];
  set_fields = [];
  ready_when = [];
  delete = false;
}

abbrev three_instances : Members
three_instances = member "spec" (obj (member "instances" (int (pos 3)) end)) end

-- A resource of the schedule "night" that warms up since a time long past.
abbrev waking : Json
waking =
    database ((state_label, state_warming_up) ∷ (managed_by_label, "night") ∷ [])
      ((warming_up_since_annotation, write_time (pos 0)) ∷ []) three_instances

Accepts-waking : Accepts (databases flux_cluster).endpoint waking running
unfolding run_resources
Accepts-waking p = (_, _, refl)

custom_resource_refines_example :
    let now = pos (700 * second) in
    let w =
      warm_custom_resource flux_cluster
        (databases flux_cluster)
        default_warmup_timeout
        "night"
        now
        entry
        waking
        []
        running in
    (phase_of read_time "night" (meta_from (view w.object)) ≡ free)
    × (w.still ≡ false)
    × IsCleared (meta_from (view w.object))
unfolding run_resources
custom_resource_refines_example =
    custom_resource_refines flux_cluster (databases flux_cluster)
      (databases-IsMetaPatch flux_cluster) "night" waking running refl Accepts-waking
      default_warmup_timeout (pos (700 * second)) entry [] (("team", false) ∷ []) false refl refl

abbrev pools : Json
pools = obj (member "pools" (arr (cons (obj end) (cons (obj end) nil))) end)

expansion_runs :
    expand pools ("pools" ∷ "*" ∷ "size" ∷ [])
    ≡ ("pools" ∷ "0" ∷ "size" ∷ []) ∷ ("pools" ∷ "1" ∷ "size" ∷ []) ∷ []
unfolding run_resources
expansion_runs = refl
