-- ===== src/Reconciler/History.antt =====
-- The wave progress over a sequence of reconciles: `carriedWaveProgress` of
-- internal/controller/lightsoutschedule_controller.go, which tells the directions apart by the state
-- of the status.
use lightsout.Base.{String, ◌≡◌, refl, ◌⊎◌, inl, inr, Bool, Option, none, some, arith, ◌==◌}
use lightsout.Base.Int.{ℤ}
use lightsout.Kube.Cluster.{Cluster}
use lightsout.SyncWave.{WaveProgress}
use lightsout.Period.{PeriodResult}
use lightsout.Termination.{TerminationReport}
use lightsout.Requeue.{carried_wave_progress}
use lightsout.CustomResource.Access.{Resources}
use lightsout.Status.{NamespaceScheduleStatus}
use lightsout.Reconciler.Server.{Util}
use lightsout.Reconciler.Cycle.{Target, scales_up, Cycle, cycled, run_cycle, next_status}
use lightsout.Reconciler.Steps.{with_failure}

module _ (c : Cluster) (r : Resources c) (u : Util) where
  -- The statuses that a sequence of reconciles leaves, with the direction of the last pass that was
  -- recorded and the progress that this very pass reported. Between two of them the cluster, the
  -- schedule and the clock may be any, and a status that is not stored stays as it was.
  pub data Recorded : NamespaceScheduleStatus → Bool → Option WaveProgress → Type 0 where
    fresh :
        (st : NamespaceScheduleStatus) (up : Bool) → st.wave_progress ≡ none → Recorded st up none
    reconciled :
        {before : NamespaceScheduleStatus} {up : Bool} {reported : Option WaveProgress}
        → Recorded before up reported
        → (t : Target) (p : PeriodResult) (now generation : ℤ) (message : String)
          (s : c.client.State) (y : Cycle c.client.State) (termination : TerminationReport)
        → run_cycle c r u t p before now s ≡ cycled y
        → Recorded
            (next_status u generation message p y termination before)
            (scales_up p)
            y.result.wave_progress
    failed :
        {before : NamespaceScheduleStatus} {up : Bool} {reported : Option WaveProgress}
        → Recorded before up reported
        → (generation : ℤ) (message : String)
        → Recorded (with_failure u generation message before) up reported

  recorded_progress :
      {st : NamespaceScheduleStatus} {up : Bool} {reported : Option WaveProgress}
      → Recorded st up reported
      → (st.wave_progress ≡ reported) × ((reported ≡ none) ⊎ ((st.state == "Up") ≡ up))
  unfolding next_status
  recorded_progress (fresh st up h) = (h, inl refl)
  recorded_progress (reconciled before t p now generation message s y termination e) =
      (refl, inr refl)
  recorded_progress (failed before generation message) = recorded_progress before

  -- After any sequence of reconciles, failures included, the wave progress that a pass carries over
  -- is what the last recorded pass reported, and that pass went in the same direction.
  pub carried_same_direction :
      {before : NamespaceScheduleStatus} {up : Bool} {reported : Option WaveProgress}
      (p : PeriodResult) (progress : WaveProgress)
      → Recorded before up reported
      → carried_wave_progress before.state before.wave_progress p ≡ some progress
      → (reported ≡ some progress) × (up ≡ scales_up p)
  unfolding carried_wave_progress
  carried_same_direction {before} {up} {reported} p progress h k =
      let (same, direction) = recorded_progress h in
      elim direction [ inl none' ↦ absurd (ground arith) | inr e ↦ (ground arith, ground arith) ]
