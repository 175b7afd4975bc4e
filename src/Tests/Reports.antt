-- ===== src/Tests/Reports.antt =====
-- The status that a reconcile leaves, and the metrics of a deleted schedule, on the cluster of Tests/Reconciles.
use lightsout.Base.{
  String, String-discrete, ◌≡◌, refl, Bool, true, false, not, ◌&&◌, none, List, [], ◌∷◌, ok,
}
use lightsout.Kube.Memory.{running}
use lightsout.Metrics.{
  Vectors, carries, Registry, stuck_terminating_pods, clear_schedule_metrics, cleared_series,
}
use lightsout.Reconciler.Global
use lightsout.Reconciler.Reports.{IsReported, reconcile-IsReported}
use lightsout.Tests.Passes.{small}
use lightsout.Tests.Reconciles.{
  databases, lists, util, schedules, stored, clock, cache, tonight, run_reconcile,
}

reconcile-IsReported_example : IsReported util schedules (stored none none) (ok tonight) (
    Global.reconcile_active small
      (databases small [])
      lists
      util
      schedules
      clock
      (stored none none)
      cache
      running)
unfolding run_reconcile
reconcile-IsReported_example =
    reconcile-IsReported small (databases small []) lists util schedules (stored none none) clock
      cache running

-- A vector as the test for its series; every series is there.
abbrev sets : Vectors
sets = record {
  Vec = List String → Bool;
  has = λ v values. v values;
  delete_partial_match = λ labels l v values. v values && not (carries l labels values);
}

abbrev every : Registry sets
every m values = true

cleared_series_example :
    sets.has
      (clear_schedule_metrics sets "night" every stuck_terminating_pods)
      ("night" ∷ "team" ∷ [])
    ≡ false
unfolding String-discrete
cleared_series_example =
    cleared_series sets (λ labels l v values. refl) "night" every stuck_terminating_pods "night"
      ("team" ∷ [])
