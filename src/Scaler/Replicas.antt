-- ===== src/Scaler/Replicas.antt =====
-- `ScaleDeployment`, `ScaleStatefulSet` and `scaleReplicas` of internal/controller/scaler.go.
pub mod Laws
pub mod RoundTrip
use lightsout.Base.{ℕ, ◌-◌, ◌^◌, String, Bool, true, false, ◌&&◌, ◌||◌, Option, none, some}
use lightsout.Base.{[], ◌∷◌, ok, err}
use lightsout.Base.{◌==◌, ◌!=◌, if◌then◌else◌}
use lightsout.Base.Dict.{get}
use lightsout.Base.Int.{ℤ, pos, neg, eqb_ℤ, ltb_ℤ}
use lightsout.Base.Decimal.{itoa, parse_int}
use lightsout.Constants.{managed_by_annotation, managed_by_label, original_replicas_annotation}
use lightsout.Json.{int, end, member}
use lightsout.Kube.Objects.{Replicated, HpaList, deref}
use lightsout.Kube.Patch.{ObjectPatch}
use lightsout.Kube.Client.{Client, apply_merge_patch}
use lightsout.Scaler.Outcome.{
  skip_reason_different_schedule, skip_reason_not_managed, skip_reason_user_parked, ScaleResult,
  skip, scaled, Outcome, conclude,
}
use lightsout.Scaler.Hpa.{patch_hpa_for_downscale, restore_hpa}

-- The patch that scales a workload to zero and records what it had.
abbrev pub down_patch : ℤ → String → ObjectPatch
down_patch current schedule_name = record {
  set_labels = (managed_by_label, schedule_name) ∷ [];
  set_annotations =
      (original_replicas_annotation, itoa current) ∷ (managed_by_annotation, schedule_name) ∷ [];
  remove_annotations = [];
  remove_labels = [];
  spec = member "replicas" (int (pos 0)) end;
}

-- The patch that gives a workload its replicas back and releases it.
abbrev pub up_patch : ℤ → ObjectPatch
up_patch replicas = record {
  set_labels = [];
  set_annotations = [];
  remove_annotations = original_replicas_annotation ∷ managed_by_annotation ∷ [];
  remove_labels = managed_by_label ∷ [];
  spec = member "replicas" (int replicas) end;
}

-- `replicas` defaults to 1 where the annotation does not parse.
unfoldable pub parse_replicas : String → ℤ
parse_replicas s = elim (parse_int 32 s) [ none ↦ pos 1 | some n ↦ n ]

-- Another schedule has claimed the workload.
abbrev pub is_foreign : String → String → Bool
is_foreign managed_by schedule_name = managed_by != "" && managed_by != schedule_name

module _ (c : Client) where
  abbrev pub ReplicasOutcome : Type 0
  ReplicasOutcome = Outcome c.State Replicated

  abbrev pub left_alone : Replicated → String → HpaList → c.State → Outcome c.State Replicated
  left_alone o reason hpas s = record {
    result = ok (skip reason);
    object = o;
    hpas = hpas;
    state = s;
  }

  -- The writes of `scaleReplicasDown`: the HPA first, then the workload.
  unfoldable pub write_down :
      Replicated → String → ℤ → String → HpaList → c.State → Outcome c.State Replicated
  write_down o kind current schedule_name hpas s =
      let (_, hpas', s') = patch_hpa_for_downscale c hpas kind o.meta.name schedule_name s in
      conclude (scaled (itoa current) "0") o hpas'
        (apply_merge_patch c.replicated o (down_patch current schedule_name) s')

  -- `scaleReplicasDown`
  unfoldable pub scale_replicas_down :
      Replicated
      → String
      → Option ℤ
      → String
      → String
      → String
      → HpaList
      → c.State
      → Outcome c.State Replicated
  scale_replicas_down o kind replicas schedule_name managed_by original_replicas hpas s =
      if is_foreign managed_by schedule_name
      then left_alone o skip_reason_different_schedule hpas s
      else if original_replicas != ""
      then left_alone o "already scaled down" hpas s
      else let current = deref replicas (pos 1) in
        if eqb_ℤ current (pos 0)
        then left_alone o skip_reason_user_parked hpas s
        else write_down o kind current schedule_name hpas s

  -- The HPA is restored after the replicas are written, and only if that write succeeded.
  pub restore_after : String → String → ReplicasOutcome → ReplicasOutcome
  restore_after kind schedule_name r = elim (r.result) [
    | err e ↦ r
    | ok _ ↦
        let (_, hpas', s') = restore_hpa c r.hpas kind r.object.meta.name schedule_name r.state in
        record r { hpas = hpas'; state = s' }
  ]

  -- The writes of `scaleReplicasUp`.
  unfoldable pub write_up :
      Replicated → String → ℤ → String → HpaList → c.State → Outcome c.State Replicated
  unfolding restore_after
  write_up o kind replicas schedule_name hpas s = restore_after kind schedule_name (
      conclude (scaled "0" (itoa replicas)) o hpas
        (apply_merge_patch c.replicated o (up_patch replicas) s))

  -- `scaleReplicasUp`
  unfoldable pub scale_replicas_up :
      Replicated
      → String
      → String
      → String
      → String
      → HpaList
      → c.State
      → Outcome c.State Replicated
  scale_replicas_up o kind schedule_name managed_by original_replicas hpas s =
      if original_replicas == ""
      then (let (_, hpas', s') = restore_hpa c hpas kind o.meta.name schedule_name s in
          left_alone o skip_reason_not_managed hpas' s')
      else if is_foreign managed_by schedule_name
      then left_alone o skip_reason_different_schedule hpas s
      else let replicas = parse_replicas original_replicas in
        if ltb_ℤ replicas (neg (2 ^ 31)) || ltb_ℤ (pos (2 ^ 31 - 1)) replicas
        then record {
          result = err "original replicas value overflows int32";
          object = o;
          hpas = hpas;
          state = s;
        }
        else write_up o kind replicas schedule_name hpas s

  -- `scaleReplicas`; `ScaleDeployment` and `ScaleStatefulSet` call it with their kind.
  unfoldable pub scale_replicas :
      Replicated → String → String → Bool → HpaList → c.State → Outcome c.State Replicated
  unfolding scale_replicas_up scale_replicas_down
  scale_replicas o kind schedule_name scale_up hpas s =
      let managed_by = get managed_by_annotation o.meta.annotations in
      let original = get original_replicas_annotation o.meta.annotations in
      if scale_up
      then scale_replicas_up o kind schedule_name managed_by original hpas s
      else scale_replicas_down o kind o.replicas schedule_name managed_by original hpas s

  abbrev pub scale_deployment :
      Replicated → String → Bool → HpaList → c.State → Outcome c.State Replicated
  scale_deployment o = scale_replicas o "Deployment"

  abbrev pub scale_stateful_set :
      Replicated → String → Bool → HpaList → c.State → Outcome c.State Replicated
  scale_stateful_set o = scale_replicas o "StatefulSet"
