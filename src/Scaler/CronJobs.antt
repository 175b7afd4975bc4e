-- ===== src/Scaler/CronJobs.antt =====
-- `ScaleCronJob` of internal/controller/scaler.go.
pub mod Laws
use lightsout.Base.{String, Bool, true, false, ◌&&◌, Option, none, some}
use lightsout.Base.{[], ◌∷◌, ok, Result}
use lightsout.Base.{◌==◌, ◌!=◌, if◌then◌else◌}
use lightsout.Base.Dict.{get}
use lightsout.Constants.{
  managed_by_annotation, managed_by_label, original_suspend_annotation, suspended_by_lights_out,
  suspended_by_user,
}
use lightsout.Json.{bool, end, member}
use lightsout.Kube.Objects.{CronJob}
use lightsout.Kube.Patch.{ObjectPatch}
use lightsout.Kube.Client.{Client, apply_merge_patch}
use lightsout.Scaler.Outcome.{
  skip_reason_different_schedule, skip_reason_not_managed, ScaleResult, skip, scaled, Outcome,
  conclude,
}
use lightsout.Scaler.Replicas.{is_foreign}

abbrev pub suspend_patch : String → ObjectPatch
suspend_patch schedule_name = record {
  set_labels = (managed_by_label, schedule_name) ∷ [];
  set_annotations =
      (original_suspend_annotation, suspended_by_lights_out)
      ∷ (managed_by_annotation, schedule_name)
      ∷ [];
  remove_annotations = [];
  remove_labels = [];
  spec = member "suspend" (bool true) end;
}

abbrev pub resume_patch : ObjectPatch
resume_patch = record {
  set_labels = [];
  set_annotations = [];
  remove_annotations = original_suspend_annotation ∷ managed_by_annotation ∷ [];
  remove_labels = managed_by_label ∷ [];
  spec = member "suspend" (bool false) end;
}

-- Marks a CronJob that its user suspended.
abbrev pub mark_patch : ObjectPatch
mark_patch = record {
  set_labels = [];
  set_annotations = (original_suspend_annotation, suspended_by_user) ∷ [];
  remove_annotations = [];
  remove_labels = [];
  spec = end;
}

-- `cj.Spec.Suspend != nil && *cj.Spec.Suspend`
abbrev pub is_suspended : CronJob → Bool
is_suspended o = elim (o.suspend) [ none ↦ false | some b ↦ b ]

module _ (c : Client) where
  abbrev untouched : CronJob → String → c.State → Outcome c.State CronJob
  untouched o reason s = record { result = ok (skip reason); object = o; hpas = none; state = s }

  -- `scaleCronJobDown`
  unfoldable pub scale_cron_job_down :
      CronJob → String → String → String → c.State → Outcome c.State CronJob
  scale_cron_job_down o schedule_name managed_by original_suspend s =
      if is_foreign managed_by schedule_name
      then untouched o skip_reason_different_schedule s
      else if original_suspend != ""
      then untouched o "already managed" s
      else if is_suspended o
      then untouched o "suspended by user" s
      else conclude (scaled "false" "true") o none
          (apply_merge_patch c.cron_jobs o (suspend_patch schedule_name) s)

  -- `scaleCronJobUp`
  unfoldable pub scale_cron_job_up :
      CronJob → String → String → String → c.State → Outcome c.State CronJob
  scale_cron_job_up o schedule_name managed_by original_suspend s =
      if is_suspended o && original_suspend == ""
      then conclude (skip "marked as user-suspended") o none
          (apply_merge_patch c.cron_jobs o mark_patch s)
      else if original_suspend == suspended_by_user
      then untouched o "user-suspended" s
      else if original_suspend != suspended_by_lights_out
      then untouched o skip_reason_not_managed s
      else if is_foreign managed_by schedule_name
      then untouched o skip_reason_different_schedule s
      else conclude (scaled "true" "false") o none (apply_merge_patch c.cron_jobs o resume_patch s)

  -- `ScaleCronJob`
  unfoldable pub scale_cron_job : CronJob → String → Bool → c.State → Outcome c.State CronJob
  unfolding scale_cron_job_up scale_cron_job_down
  scale_cron_job o schedule_name scale_up s =
      let managed_by = get managed_by_annotation o.meta.annotations in
      let original = get original_suspend_annotation o.meta.annotations in
      if scale_up
      then scale_cron_job_up o schedule_name managed_by original s
      else scale_cron_job_down o schedule_name managed_by original s
