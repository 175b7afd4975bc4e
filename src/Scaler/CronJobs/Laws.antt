-- ===== src/Scaler/CronJobs/Laws.antt =====
-- Suspending a CronJob and resuming it.
use lightsout.Base.{String, ◌≡◌, refl, ◌∙◌, ap, sym, Bool, true, false, none, some, [], arith, ok}
use lightsout.Base.{◌==◌, String-discrete}
use lightsout.Base.Dict.{lookup, get, value}
use lightsout.Constants.{
  managed_by_annotation, managed_by_label, original_suspend_annotation, suspended_by_lights_out,
  suspended_by_user,
}
use lightsout.Json.{dig}
use lightsout.Kube.Objects.{CronJob}
use lightsout.Kube.Patch.Build.{dig_spec-build}
use lightsout.Kube.Client.{
  Client, apply_merge_patch, IsMergePatch, merged_bool, annotation_after, label_after,
}
use lightsout.Scaler.Outcome.{ScaleResult, skip, scaled, conclude, conclude-ok}
use lightsout.Scaler.CronJobs.{
  suspend_patch, resume_patch, mark_patch, is_suspended, scale_cron_job,
}

pub mark_is_set : (suspended_by_lights_out == "") ≡ false
unfolding String-discrete
mark_is_set = refl

pub marks_differ : (suspended_by_lights_out == suspended_by_user) ≡ false
unfolding String-discrete
marks_differ = refl

-- A CronJob that the schedule has suspended.
pub record IsHeld (schedule_name : String) (o : CronJob) : Type 0 where
  pub suspend : o.suspend ≡ some true
  pub original :
      lookup original_suspend_annotation o.meta.annotations ≡ some suspended_by_lights_out
  pub managed_by : lookup managed_by_annotation o.meta.annotations ≡ some schedule_name
  pub label : lookup managed_by_label o.meta.labels ≡ some schedule_name

-- A CronJob that runs and carries no mark of any schedule.
pub record IsRunning (o : CronJob) : Type 0 where
  pub suspend : o.suspend ≡ some false
  pub original : lookup original_suspend_annotation o.meta.annotations ≡ none
  pub managed_by : lookup managed_by_annotation o.meta.annotations ≡ none
  pub label : lookup managed_by_label o.meta.labels ≡ none

module _ (c : Client) where
  -- A CronJob that carries the mark of a user's suspension is never written, in either direction,
  -- by any schedule, whether or not it is suspended now.
  marked_left_alone :
      (o : CronJob) (schedule_name : String) (up : Bool) (s : c.State)
      → get original_suspend_annotation o.meta.annotations ≡ suspended_by_user
      → let r = scale_cron_job c o schedule_name up s in (r.object ≡ o) × (r.state ≡ s)
  unfolding scale_cron_job String-discrete
  marked_left_alone o schedule_name true s h = rw h (ground arith)
  marked_left_alone o schedule_name false s h = rw h (ground arith)

  -- A CronJob that its user suspended is not resumed: an upscale either marks it or leaves it.
  suspended_by_user_up :
      (o : CronJob) (schedule_name : String) (s : c.State)
      → is_suspended o ≡ true
      → get original_suspend_annotation o.meta.annotations ≡ ""
      → scale_cron_job c o schedule_name true s
        ≡ conclude
            (skip "marked as user-suspended")
            o
            none
            (apply_merge_patch c.cron_jobs o mark_patch s)
  unfolding scale_cron_job
  suspended_by_user_up o schedule_name s h k = ground arith

  down-eq-conclude :
      (o : CronJob) (schedule_name : String) (s : c.State) (r : ScaleResult)
      → (scale_cron_job c o schedule_name false s).result ≡ ok r
      → r.skipped ≡ false
      → scale_cron_job c o schedule_name false s
        ≡ conclude
            (scaled "false" "true")
            o
            none
            (apply_merge_patch c.cron_jobs o (suspend_patch schedule_name) s)
  unfolding scale_cron_job
  down-eq-conclude o schedule_name s r h k = ground arith

  up-eq-conclude :
      (o : CronJob) (schedule_name : String) (s : c.State)
      → get original_suspend_annotation o.meta.annotations ≡ suspended_by_lights_out
      → get managed_by_annotation o.meta.annotations ≡ schedule_name
      → scale_cron_job c o schedule_name true s
        ≡ conclude (scaled "true" "false") o none (apply_merge_patch c.cron_jobs o resume_patch s)
  unfolding scale_cron_job
  up-eq-conclude o schedule_name s h k = ground (arith, mark_is_set, marks_differ)

module _ (c : Client) (law : IsMergePatch c) where
  suspend_patch-IsHeld :
      (schedule_name : String) (o o' : CronJob) (s s' : c.State)
      → apply_merge_patch c.cron_jobs o (suspend_patch schedule_name) s ≡ (ok o', s')
      → IsHeld schedule_name o'
  unfolding apply_merge_patch lookup String-discrete dig
  suspend_patch-IsHeld schedule_name o o' s s' h =
      let p = suspend_patch schedule_name in
      let (m, r) = law.cron_jobs o o' _ s s' h in
      record {
        suspend =
            r
            ∙ ap (λ x. merged_bool x (c.cron_jobs.current s o).suspend)
                (dig_spec-build p "suspend" []);
        original = annotation_after p m original_suspend_annotation;
        managed_by = annotation_after p m managed_by_annotation;
        label = label_after p m managed_by_label;
      }

  pub resume_patch-IsRunning :
      (o o' : CronJob) (s s' : c.State)
      → apply_merge_patch c.cron_jobs o resume_patch s ≡ (ok o', s')
      → IsRunning o'
  unfolding apply_merge_patch lookup String-discrete dig
  resume_patch-IsRunning o o' s s' h =
      let p = resume_patch in
      let (m, r) = law.cron_jobs o o' _ s s' h in
      record {
        suspend =
            r
            ∙ ap (λ x. merged_bool x (c.cron_jobs.current s o).suspend)
                (dig_spec-build p "suspend" []);
        original = annotation_after p m original_suspend_annotation;
        managed_by = annotation_after p m managed_by_annotation;
        label = label_after p m managed_by_label;
      }

  pub down-IsHeld :
      (o : CronJob) (schedule_name : String) (s : c.State) (r : ScaleResult)
      → (scale_cron_job c o schedule_name false s).result ≡ ok r
      → r.skipped ≡ false
      → IsHeld schedule_name (scale_cron_job c o schedule_name false s).object
  down-IsHeld o schedule_name s r h k =
      let same = down-eq-conclude c o schedule_name s r h k in
      let (o', s', e, at, _) = conclude-ok _ o none _ (ap (λ x. x.result) (sym same) ∙ h) in
      rw (same, at) (suspend_patch-IsHeld schedule_name o o' s s' e)

  -- After a downscale that suspended a CronJob, an upscale that the server accepts resumes it and
  -- removes every mark, from any later copy `o2` on which the two annotations still stand.
  pub cron_job_round_trip :
      (o o2 : CronJob) (schedule_name : String) (s s2 : c.State) (r r2 : ScaleResult)
      → (scale_cron_job c o schedule_name false s).result ≡ ok r
      → r.skipped ≡ false
      → let down = (scale_cron_job c o schedule_name false s).object in
        lookup original_suspend_annotation o2.meta.annotations
          ≡ lookup original_suspend_annotation down.meta.annotations
        → lookup managed_by_annotation o2.meta.annotations
          ≡ lookup managed_by_annotation down.meta.annotations
        → (scale_cron_job c o2 schedule_name true s2).result ≡ ok r2
        → IsRunning (scale_cron_job c o2 schedule_name true s2).object × (r2.skipped ≡ false)
  unfolding get
  cron_job_round_trip o o2 schedule_name s s2 r r2 h k orig managed h2 =
      let d = down-IsHeld o schedule_name s r h k in
      let same =
        up-eq-conclude c o2 schedule_name s2 (ap value (orig ∙ d.original))
          (ap value (managed ∙ d.managed_by)) in
      let (o', s', e, at, is) = conclude-ok _ o2 none _ (ap (λ x. x.result) (sym same) ∙ h2) in
      (rw (same, at) (resume_patch-IsRunning o2 o' s2 s' e), ap (λ x. x.skipped) is)
