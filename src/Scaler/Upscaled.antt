-- ===== src/Scaler/Upscaled.antt =====
-- What an upscale of internal/controller/scaler.go that reports no error has done, whatever marks
-- the workload carried.
use lightsout.Base.{
  String, ◌≡◌, sym, ap, ◌∙◌, ◌⊎◌, inl, inr, Bool, true, false, none, arith, ok, Bool-cases, refl,
  not, ◌&&◌,
}
use lightsout.Base.{◌==◌}
use lightsout.Base.Dict.{get}
use lightsout.Constants.{
  managed_by_annotation, original_replicas_annotation, original_suspend_annotation,
  suspended_by_lights_out,
}
use lightsout.Kube.Objects.{Replicated, CronJob, HpaList}
use lightsout.Kube.Client.{Client, apply_merge_patch, IsMergePatch}
use lightsout.Scaler.Outcome.{ScaleResult, scaled, conclude, conclude-ok}
use lightsout.Scaler.Replicas.{write_up, scale_replicas, parse_replicas, is_foreign}
use lightsout.Scaler.Replicas.Laws.{IsReleased, write_up-IsReleased}
use lightsout.Scaler.Replicas.RoundTrip.{parse_replicas_fits}
use lightsout.Scaler.CronJobs.{resume_patch, scale_cron_job}
use lightsout.Scaler.CronJobs.Laws.{IsRunning, resume_patch-IsRunning, mark_is_set, marks_differ}

-- The replicas that a workload had, as its annotation records them.
abbrev pub recorded_replicas : Replicated → String
recorded_replicas o = get original_replicas_annotation o.meta.annotations

-- Another schedule's name stands in the annotation.
abbrev pub is_others : String → Replicated → Bool
is_others schedule_name o = is_foreign (get managed_by_annotation o.meta.annotations) schedule_name

-- A CronJob that LightsOut suspended, and no other schedule claims.
abbrev pub is_held_cron_job : String → CronJob → Bool
is_held_cron_job schedule_name o =
    get original_suspend_annotation o.meta.annotations == suspended_by_lights_out
    && not (is_foreign (get managed_by_annotation o.meta.annotations) schedule_name)

module _ (c : Client) where
  up-eq-write_up :
      (o : Replicated) (kind schedule_name : String) (hpas : HpaList) (s : c.State)
      → (recorded_replicas o == "") ≡ false
      → is_others schedule_name o ≡ false
      → scale_replicas c o kind schedule_name true hpas s
        ≡ write_up c o kind (parse_replicas (recorded_replicas o)) schedule_name hpas s
  unfolding scale_replicas
  up-eq-write_up o kind schedule_name hpas s recorded own =
      rw recorded (rw own (rw (parse_replicas_fits (recorded_replicas o)) refl))

  held_up :
      (o : CronJob) (schedule_name : String) (s : c.State)
      → is_held_cron_job schedule_name o ≡ true
      → scale_cron_job c o schedule_name true s
        ≡ conclude (scaled "true" "false") o none (apply_merge_patch c.cron_jobs o resume_patch s)
  unfolding scale_cron_job
  held_up o schedule_name s h = ground (arith, mark_is_set, marks_differ)

module _ (c : Client) (law : IsMergePatch c) where
  -- An upscale that reports no error found no record of the replicas, or another schedule's name,
  -- or the server answered with the replicas restored and every mark gone.
  pub upscaled :
      (o : Replicated) (kind schedule_name : String) (hpas : HpaList) (s : c.State)
      (r : ScaleResult)
      → (scale_replicas c o kind schedule_name true hpas s).result ≡ ok r
      → (recorded_replicas o ≡ "")
        ⊎ (is_others schedule_name o ≡ true)
        ⊎ IsReleased
            (parse_replicas (recorded_replicas o))
            (scale_replicas c o kind schedule_name true hpas s).object
  upscaled o kind schedule_name hpas s r h = elim (Bool-cases (recorded_replicas o == "")) [
    | inl blank ↦ inl (ground arith)
    | inr recorded ↦ elim (Bool-cases (is_others schedule_name o)) [
      | inl other ↦ inr (inl other)
      | inr own ↦
          let same = up-eq-write_up c o kind schedule_name hpas s recorded own in
          inr (
            inr (
              rw same (
                write_up-IsReleased c law o kind (parse_replicas (recorded_replicas o))
                  schedule_name hpas s (ap (λ x. x.result) (sym same) ∙ h))))
    ]
  ]

  -- An upscale of a CronJob that the schedule holds, if it reports no error, resumed it and removed
  -- every mark.
  pub resumed :
      (o : CronJob) (schedule_name : String) (s : c.State) (r : ScaleResult)
      → is_held_cron_job schedule_name o ≡ true
      → (scale_cron_job c o schedule_name true s).result ≡ ok r
      → IsRunning (scale_cron_job c o schedule_name true s).object
  resumed o schedule_name s r held h =
      let same = held_up c o schedule_name s held in
      let (o', s', e, at, _) = conclude-ok _ o none _ (ap (λ x. x.result) (sym same) ∙ h) in
      rw (same, at) (resume_patch-IsRunning c law o o' s s' e)
