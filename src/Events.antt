-- ===== src/Events.antt =====
-- The events of internal/controller/events.go, as values: what `Eventf` is called with, for an object
-- that the caller chose. A manager always hands a recorder over, and the scalers a result.
use lightsout.Base.{
  ℕ, ◌+◌, ◌≡◌, String, ◌<>◌, Bool, true, false, not, ◌&&◌, List, [], ◌∷◌, ◌++◌, arith, length, inl,
  inr, ltb, ok, err, if◌then◌else◌, Bool-cases, Result-cases,
}
use lightsout.Base.Decimal.{itoa}
use lightsout.Base.Int.{pos}
use lightsout.Constants.{
  event_reason_scaled_up, event_reason_scaled_down, event_action_scale_up, event_action_scale_down,
}
use lightsout.Workload.{Workload, of_deployment, of_stateful_set, of_cron_job, WorkloadStats}
use lightsout.Scaler.Outcome.{ScaleResult}
use lightsout.Batcher.{Pass, Scaled, tally}

-- An event of the type Normal.
pub record Event : Type 0 where
  pub reason : String
  pub action : String
  pub note : String

-- The replicas of a workload, before and after; `quote` is the verb %q of fmt.
abbrev replicas_event : (String → String) → (kind name : String) → Bool → ScaleResult → Event
replicas_event quote kind name true r = record {
  reason = event_reason_scaled_up;
  action = event_action_scale_up;
  note =
      "Scaled up by LightsOut "
      <> kind
      <> " "
      <> quote name
      <> ": replicas "
      <> r.previous_value
      <> " → "
      <> r.new_value;
}
replicas_event quote kind name false r = record {
  reason = event_reason_scaled_down;
  action = event_action_scale_down;
  note =
      "Scaled down by LightsOut "
      <> kind
      <> " "
      <> quote name
      <> ": replicas "
      <> r.previous_value
      <> " → "
      <> r.new_value;
}

abbrev cron_job_event : (String → String) → (kind name : String) → Bool → Event
cron_job_event quote kind name true = record {
  reason = "Resumed";
  action = "Resume";
  note = "Resumed by LightsOut " <> kind <> " " <> quote name;
}
cron_job_event quote kind name false = record {
  reason = "Suspended";
  action = "Suspend";
  note = "Suspended by LightsOut " <> kind <> " " <> quote name;
}

abbrev event_of : (String → String) → Workload → (name kind : String) → Bool → ScaleResult → Event
event_of quote (of_deployment d) name kind up r = replicas_event quote kind name up r
event_of quote (of_stateful_set d) name kind up r = replicas_event quote kind name up r
event_of quote (of_cron_job j) name kind up r = cron_job_event quote kind name up

-- `recordWorkloadEvent`
unfoldable record_workload_event :
    (String → String) → Workload → (name kind : String) → Bool → ScaleResult → List Event
record_workload_event quote w name kind scale_up r =
    if r.skipped then [] else event_of quote w name kind scale_up r ∷ []

-- `recordScalingEvents`, for the number of namespaces.
unfoldable record_scaling_events : Bool → WorkloadStats → ℕ → List Event
record_scaling_events scale_up t namespaces =
    let scaled = t.deployments_scaled + t.stateful_sets_scaled + t.cron_jobs_suspended in
    let managed = t.deployments_managed + t.stateful_sets_managed + t.cron_jobs_managed in
    let down : List Event =
      record {
        reason = event_reason_scaled_down;
        action = event_action_scale_down;
        note =
            "Scaled down "
            <> itoa (pos t.deployments_scaled)
            <> " deployments, "
            <> itoa (pos t.stateful_sets_scaled)
            <> " statefulsets, suspended "
            <> itoa (pos t.cron_jobs_suspended)
            <> " cronjobs across "
            <> itoa (pos namespaces)
            <> " namespaces";
      }
      ∷ [] in
    let up : List Event =
      record {
        reason = event_reason_scaled_up;
        action = event_action_scale_up;
        note =
            "Scaled up workloads across "
            <> itoa (pos namespaces)
            <> " namespaces (managing "
            <> itoa (pos t.deployments_managed)
            <> " deployments, "
            <> itoa (pos t.stateful_sets_managed)
            <> " statefulsets, "
            <> itoa (pos t.cron_jobs_managed)
            <> " cronjobs)";
      }
      ∷ [] in
    (if not scale_up && ltb 0 scaled then down else [])
    ++ (if scale_up && ltb 0 managed then up else [])

-- What the loop of a pass records after one call of a typed scaler: a call that failed records
-- nothing, and neither does one that was skipped.
unfoldable events_of_call :
    {S : Type 0} → (String → String) → (name kind : String) → Bool → Scaled S → List Event
events_of_call quote name kind scale_up a = elim (a.result) [
  | err e ↦ []
  | ok r ↦ if r.skipped then [] else record_workload_event quote a.workload name kind scale_up r
]

-- A pass counts a workload as processed exactly if it records an event for it, and then one.
tally-events_of_call :
    {S : Type 0} (quote : String → String) (name kind : String) (scale_up waves : Bool) (p : Pass S)
    (w : Workload) (a : Scaled S)
    → (tally waves p w a).processed
      ≡ p.processed + length (events_of_call quote name kind scale_up a)
unfolding tally events_of_call record_workload_event
tally-events_of_call quote name kind scale_up waves p w a = elim (Result-cases a.result) [
  | inr (e, h) ↦ rw (h, tally, events_of_call) (ground arith)
  | inl (r, h) ↦
      rw (h, tally, events_of_call)
        (elim (Bool-cases r.skipped) [
          | inl skip ↦ rw skip (ground arith)
          | inr kept ↦ rw kept (ground arith)
        ])
]

-- A pass that went down and scaled nothing, or that went up and manages nothing, records no event
-- for its schedule; any other records one.
record_scaling_events_lem :
    (scale_up : Bool) (t : WorkloadStats) (namespaces : ℕ)
    → length (record_scaling_events scale_up t namespaces) ≡ (
        if ltb 0 (
          if scale_up
          then t.deployments_managed + t.stateful_sets_managed + t.cron_jobs_managed
          else t.deployments_scaled + t.stateful_sets_scaled + t.cron_jobs_suspended)
        then 1
        else 0)
unfolding record_scaling_events
record_scaling_events_lem true t namespaces = ground arith
record_scaling_events_lem false t namespaces = ground arith
