-- ===== src/GitOps/ArgoCd/Machine.antt =====
-- The steps of `handleArgoCDWarmup` on one Application, by its phase.
use lightsout.Base.{String, ◌≡◌, Bool, true, false, ◌&&◌, arith}
use lightsout.Base.{◌!=◌, ok}
use lightsout.Base.Dict.{get, value}
use lightsout.Base.Int.{ℤ}
use lightsout.Constants.{state_label, state_down, state_warming_up}
use lightsout.Json.{end}
use lightsout.Kube.Objects.{App}
use lightsout.Kube.Patch.{ObjectPatch, build}
use lightsout.Kube.Client.{IsMergePatch, MergedMeta}
use lightsout.Kube.Cluster.{Cluster}
use lightsout.GitOps.Readiness.{check_workload_readiness}
use lightsout.GitOps.Marks.{
  down_patch, warming_up_patch, release_patch, recorded_start, owned_by_other, in_state,
  warming_up_since,
}
use lightsout.GitOps.Marks.Answers.{Accepts, after_patch, object-patched, skipped-patched}
use lightsout.GitOps.Marks.Phases.{
  free, held, warming, phase_of, is_over, says_ready, phase-down, phase-warming_up, phase-release,
  down_is_not_warming,
}
use lightsout.GitOps.ArgoCd.{
  label_argo_cd_app_down, label_argo_cd_app_warming_up, complete_argo_cd_warmup, app_ready,
  completed_app, relabelled_app, warm_argo_cd_app,
}

-- Whether the namespace that an Application deploys into is ready; false where it names none.
abbrev pub destination_ready : (c : Cluster) → App → c.client.State → Bool
destination_ready c o s =
    value o.destination_namespace != ""
    && says_ready (check_workload_readiness c (value o.destination_namespace) s)

module _ (c : Cluster) (law : IsMergePatch c.client) (schedule_name : String) (o : App)
    (s : c.client.State) (fresh : c.client.apps.current s o ≡ o)
    (accepts : Accepts c.client.apps o s) where
  answered_meta :
      (p : ObjectPatch) → MergedMeta (build p) o.meta (after_patch c.client.apps o s accepts p).meta
  unfolding after_patch
  answered_meta p = let m = law.apps o _ _ s _ (accepts (build p)).2 in rw fresh at m

  pub begin_lem :
      (now : ℤ)
      → owned_by_other o.meta.labels schedule_name ≡ false
      → in_state state_warming_up o.meta.labels schedule_name ≡ false
      → phase_of c.parse_time schedule_name
          (label_argo_cd_app_warming_up c o schedule_name now s).object.meta
        ≡ warming (c.parse_time (c.format_time now))
  unfolding label_argo_cd_app_warming_up
  begin_lem now mine settled =
      let p = warming_up_patch schedule_name (c.format_time now) end in
      rw (mine, settled, object-patched c.client.apps o s accepts p)
        (phase-warming_up c.parse_time schedule_name end (c.format_time now) (answered_meta p))

  pub finish_lem :
      (phase_of c.parse_time schedule_name (complete_argo_cd_warmup c o s).object.meta ≡ free)
      × ((complete_argo_cd_warmup c o s).skipped ≡ ok false)
  unfolding complete_argo_cd_warmup
  finish_lem =
      let p = release_patch end in
      (
        rw (object-patched c.client.apps o s accepts p)
            (phase-release c.parse_time schedule_name end (answered_meta p)),
        skipped-patched c.client.apps o s accepts p,
      )

  pub down_lem :
      owned_by_other o.meta.labels schedule_name ≡ false
      → in_state state_down o.meta.labels schedule_name ≡ false
      → phase_of c.parse_time schedule_name (label_argo_cd_app_down c o schedule_name s).object.meta
        ≡ held
  unfolding label_argo_cd_app_down
  down_lem mine settled =
      let p = down_patch schedule_name end in
      rw (mine, settled, object-patched c.client.apps o s accepts p)
        (phase-down c.parse_time schedule_name end (answered_meta p))

  pub warm_down :
      (timeout now : ℤ)
      → get state_label o.meta.labels ≡ state_down
      → warm_argo_cd_app c timeout schedule_name now o s
        ≡ relabelled_app c (label_argo_cd_app_warming_up c o schedule_name now s)
  unfolding warm_argo_cd_app
  warm_down timeout now h = ground arith

  pub warm_over :
      (timeout now : ℤ)
      → get state_label o.meta.labels ≡ state_warming_up
      → is_over timeout now now
          (destination_ready c o s)
          (recorded_start c.parse_time o.meta.annotations)
        ≡ true
      → warm_argo_cd_app c timeout schedule_name now o s
        ≡ completed_app c (complete_argo_cd_warmup c o s)
  unfolding warm_argo_cd_app app_ready warming_up_since
  warm_over timeout now h over = ground (arith, down_is_not_warming)

  pub warm_on :
      (timeout now : ℤ)
      → get state_label o.meta.labels ≡ state_warming_up
      → is_over timeout now now
          (destination_ready c o s)
          (recorded_start c.parse_time o.meta.annotations)
        ≡ false
      → warm_argo_cd_app c timeout schedule_name now o s
        ≡ record { still = true; object = o; state = s }
  unfolding warm_argo_cd_app app_ready warming_up_since
  warm_on timeout now h on = ground (arith, down_is_not_warming)
