-- ===== src/Scaler/Replicas/Laws.antt =====
-- Scaling a Deployment or a StatefulSet down and up again.
use lightsout.Base.{String, ◌≡◌, refl, ◌∙◌, ap, false, none, some, [], arith, ok}
use lightsout.Base.{String-discrete, Result-cases, sym, inl, inr}
use lightsout.Base.Dict.{lookup}
use lightsout.Base.Int.{ℤ, pos}
use lightsout.Base.Decimal.{itoa}
use lightsout.Constants.{managed_by_annotation, managed_by_label, original_replicas_annotation}
use lightsout.Json.{dig}
use lightsout.Kube.Objects.{Replicated, HpaList, deref}
use lightsout.Kube.Patch.Build.{dig_spec-build}
use lightsout.Kube.Client.{
  Client, apply_merge_patch, IsMergePatch, merged_int, annotation_after, label_after,
}
use lightsout.Scaler.Outcome.{ScaleResult, Outcome, scaled, conclude, conclude-ok}
use lightsout.Scaler.Replicas.{
  down_patch, up_patch, write_down, write_up, scale_replicas, restore_after,
}

-- A workload that the schedule has scaled to zero, with `n` replicas to give back.
pub record IsScaledToZero (schedule_name : String) (n : ℤ) (o : Replicated) : Type 0 where
  pub replicas : o.replicas ≡ some (pos 0)
  pub original : lookup original_replicas_annotation o.meta.annotations ≡ some (itoa n)
  pub managed_by : lookup managed_by_annotation o.meta.annotations ≡ some schedule_name
  pub label : lookup managed_by_label o.meta.labels ≡ some schedule_name

-- A workload that runs `n` replicas and carries no mark of any schedule.
pub record IsReleased (n : ℤ) (o : Replicated) : Type 0 where
  pub replicas : o.replicas ≡ some n
  pub original : lookup original_replicas_annotation o.meta.annotations ≡ none
  pub managed_by : lookup managed_by_annotation o.meta.annotations ≡ none
  pub label : lookup managed_by_label o.meta.labels ≡ none

module _ (c : Client) where
  pub restore_after_keeps :
      (kind schedule_name : String) (r : Outcome c.State Replicated)
      → ((restore_after c kind schedule_name r).object ≡ r.object)
        × ((restore_after c kind schedule_name r).result ≡ r.result)
  unfolding restore_after
  restore_after_keeps kind schedule_name r = elim (Result-cases r.result) [
    | inl (a, e) ↦ rw (e, restore_after) (refl, e)
    | inr (x, e) ↦ rw (e, restore_after) (refl, e)
  ]

module _ (c : Client) (law : IsMergePatch c) where
  down_patch-IsScaledToZero :
      (schedule_name : String) (n : ℤ) (o o' : Replicated) (s s' : c.State)
      → apply_merge_patch c.replicated o (down_patch n schedule_name) s ≡ (ok o', s')
      → IsScaledToZero schedule_name n o'
  unfolding apply_merge_patch lookup String-discrete dig
  down_patch-IsScaledToZero schedule_name n o o' s s' h =
      let p = down_patch n schedule_name in
      let (m, r) = law.replicated o o' _ s s' h in
      record {
        replicas =
            r
            ∙ ap (λ x. merged_int x (c.replicated.current s o).replicas)
                (dig_spec-build p "replicas" []);
        original = annotation_after p m original_replicas_annotation;
        managed_by = annotation_after p m managed_by_annotation;
        label = label_after p m managed_by_label;
      }

  up_patch-IsReleased :
      (n : ℤ) (o o' : Replicated) (s s' : c.State)
      → apply_merge_patch c.replicated o (up_patch n) s ≡ (ok o', s')
      → IsReleased n o'
  unfolding apply_merge_patch lookup String-discrete dig
  up_patch-IsReleased n o o' s s' h =
      let p = up_patch n in
      let (m, r) = law.replicated o o' _ s s' h in
      record {
        replicas =
            r
            ∙ ap (λ x. merged_int x (c.replicated.current s o).replicas)
                (dig_spec-build p "replicas" []);
        original = annotation_after p m original_replicas_annotation;
        managed_by = annotation_after p m managed_by_annotation;
        label = label_after p m managed_by_label;
      }

  pub write_down-IsScaledToZero :
      (o : Replicated) (kind : String) (n : ℤ) (schedule_name : String) (hpas : HpaList)
      (s : c.State) {r : ScaleResult}
      → (write_down c o kind n schedule_name hpas s).result ≡ ok r
      → IsScaledToZero schedule_name n (write_down c o kind n schedule_name hpas s).object
  unfolding write_down
  write_down-IsScaledToZero o kind n schedule_name hpas s h =
      let (o', s', e, same, _) = conclude-ok _ o _ _ h in
      rw same (down_patch-IsScaledToZero schedule_name n o o' _ s' e)

  pub write_up-IsReleased :
      (o : Replicated) (kind : String) (n : ℤ) (schedule_name : String) (hpas : HpaList)
      (s : c.State) {r : ScaleResult}
      → (write_up c o kind n schedule_name hpas s).result ≡ ok r
      → IsReleased n (write_up c o kind n schedule_name hpas s).object
  unfolding write_up
  write_up-IsReleased o kind n schedule_name hpas s h =
      let (kept, same_result) =
        restore_after_keeps c kind schedule_name (
          conclude (scaled "0" (itoa n)) o hpas
            (apply_merge_patch c.replicated o (up_patch n) s)) in
      let (o', s', e, same, _) = conclude-ok _ o _ _ (sym same_result ∙ h) in
      rw (kept ∙ same) (up_patch-IsReleased n o o' s s' e)

  -- A downscale that is not skipped has made the writes.
  scale_down-eq-write_down :
      (o : Replicated) (kind schedule_name : String) (hpas : HpaList) (s : c.State)
      (r : ScaleResult)
      → (scale_replicas c o kind schedule_name false hpas s).result ≡ ok r
      → r.skipped ≡ false
      → scale_replicas c o kind schedule_name false hpas s
        ≡ write_down c o kind (deref o.replicas (pos 1)) schedule_name hpas s
  unfolding scale_replicas
  scale_down-eq-write_down o kind schedule_name hpas s r h k = ground arith

  -- A downscale that is not skipped leaves the workload at zero replicas, with its former count
  -- recorded and the schedule's name on it.
  pub scale_down-IsScaledToZero :
      (o : Replicated) (kind schedule_name : String) (hpas : HpaList) (s : c.State)
      (r : ScaleResult)
      → (scale_replicas c o kind schedule_name false hpas s).result ≡ ok r
      → r.skipped ≡ false
      → IsScaledToZero schedule_name
          (deref o.replicas (pos 1))
          (scale_replicas c o kind schedule_name false hpas s).object
  scale_down-IsScaledToZero o kind schedule_name hpas s r h k =
      let same = scale_down-eq-write_down o kind schedule_name hpas s r h k in
      rw same (
        write_down-IsScaledToZero o kind (deref o.replicas (pos 1)) schedule_name hpas s
          (ap (λ x. x.result) (sym same) ∙ h))
