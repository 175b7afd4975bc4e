-- ===== src/Batcher.antt =====
-- `scaleWorkloads` of internal/controller/batcher.go: one pass over the collected workloads, with
-- a budget of scale operations and a gate at each sync wave boundary.
pub mod Bounds
pub mod Stops
pub mod Waves
pub mod Stats
use lightsout.Base.{
  ℕ, suc, ◌+◌, String, Bool, true, false, ◌&&◌, ◌||◌, Option, none, some, List, [], ◌∷◌, ◌++◌,
  length,
}
use lightsout.Base.{if◌then◌else◌, ltb, Result, ok, err, not}
use lightsout.Base.Dict.{Dict, lookup, insert}
use lightsout.Base.Int.{ℤ, pos, negsuc, ltb_ℤ, eqb_ℤ, ◌-ℤ◌}
use lightsout.Constants.{default_warmup_timeout}
use lightsout.Kube.Objects.{HpaList}
use lightsout.Kube.Client.{Client}
use lightsout.Kube.Cluster.{Cluster, list_hpas}
use lightsout.Workload.{
  Workload, of_deployment, of_stateful_set, of_cron_job, meta, WorkloadStats,
  is_scaled_down_by_lights_out, count_managed_workloads, record_scaled_workload,
}
use lightsout.Scaler.Outcome.{ScaleResult, Outcome}
use lightsout.Scaler.Replicas.{scale_deployment, scale_stateful_set}
use lightsout.Scaler.CronJobs.{scale_cron_job}
use lightsout.SyncWave.{WaveProgress, sync_wave, sort_workloads_by_wave, wave_gates, wave_gate}
use lightsout.Api.{ArgoCdConfig, RateLimitConfig}
use lightsout.Collect.{Filters, collect_workloads}

-- `syncWaveSettings`
unfoldable pub sync_wave_settings : Option ArgoCdConfig → Bool × ℤ
sync_wave_settings none = (false, pos 0)
sync_wave_settings (some a) =
    if a.sync_waves
    then (true, elim (a.warmup_timeout) [ none ↦ default_warmup_timeout | some t ↦ t ])
    else (false, pos 0)

-- The batch size, where one is set and positive; else -1, for no limit.
unfoldable pub initial_budget : Option RateLimitConfig → ℤ
initial_budget none = negsuc 0
initial_budget (some r) = elim (r.batch_size) [
  | none ↦ negsuc 0
  | some n ↦ if ltb_ℤ (pos 0) n then n else negsuc 0
]

-- `scaleWorkloadsConfig`, and the part of `LightsOutScheduleCore` that a pass reads. `now` is set.
pub record Config : Type 0 where
  pub schedule_name : String
  pub namespaces : List String
  pub scale_up : Bool
  pub rate_limit : Option RateLimitConfig
  pub transfer_ownership : Bool
  pub wave_progress : Option WaveProgress
  pub now : ℤ
  pub filters : Filters
  pub argo_cd : Option ArgoCdConfig

-- `scaleWorkloadsResult`
pub record ScaleWorkloadsResult : Type 0 where
  pub stats : WorkloadStats
  pub total_processed : ℕ
  pub total_failed : ℕ
  pub total_skipped : ℕ
  pub total_workloads : ℕ
  pub batch_limit_reached : Bool
  pub wave_gate_reached : Bool
  pub wave_progress : Option WaveProgress

-- `stoppedEarly`
abbrev pub stopped_early : ScaleWorkloadsResult → Bool
stopped_early r = r.batch_limit_reached || r.wave_gate_reached

-- The variables of the loop, with the cluster's state.
pub record Pass (S : Type 0) : Type 0 where
  pub stats : WorkloadStats
  pub processed : ℕ
  pub failed : ℕ
  pub skipped : ℕ
  pub budget : ℤ
  pub progress : Option WaveProgress
  pub gate_wave : ℤ
  pub gate_members : List Workload
  pub hpas : Dict HpaList
  pub state : S

-- A failed pass still returns the counts it has; the cancellation of the context is such a failure.
pub data Ended : Type 0 where
  done : ScaleWorkloadsResult → Ended
  cancelled : ScaleWorkloadsResult → Ended
  failed : String → Ended

-- `hpaLists[ns]`: nil for a namespace whose list failed
abbrev hpas_of : String → Dict HpaList → HpaList
hpas_of ns d = elim (lookup ns d) [ none ↦ none | some l ↦ l ]

-- A call of a typed scaler, seen from the loop.
pub record Scaled (S : Type 0) : Type 0 where
  pub result : Result ScaleResult
  pub workload : Workload
  pub hpas : HpaList
  pub state : S

abbrev wrapped : {S Obj : Type 0} → (Obj → Workload) → Outcome S Obj → Scaled S
wrapped wrap r = record {
  result = r.result;
  workload = wrap r.object;
  hpas = r.hpas;
  state = r.state;
}

-- The `switch` on the workload's type.
unfoldable pub scale_one :
    (c : Client) → Workload → String → Bool → HpaList → c.State → Scaled c.State
scale_one c (of_deployment d) name up hpas s =
    wrapped of_deployment (scale_deployment c d name up hpas s)
scale_one c (of_stateful_set d) name up hpas s =
    wrapped of_stateful_set (scale_stateful_set c d name up hpas s)
scale_one c (of_cron_job j) name up hpas s =
    let r = wrapped of_cron_job (scale_cron_job c j name up s) in record r { hpas = hpas }

-- The result of a pass that visited every workload, or that stopped at one of its limits.
abbrev pub report :
    {S : Type 0}
    → Pass S
    → (total : ℕ) → (at_batch at_wave : Bool) → Option WaveProgress
    → ScaleWorkloadsResult
report p total at_batch at_wave progress = record {
  stats = p.stats;
  total_processed = p.processed;
  total_failed = p.failed;
  total_skipped = p.skipped;
  total_workloads = total;
  batch_limit_reached = at_batch;
  wave_gate_reached = at_wave;
  wave_progress = progress;
}

-- A workload after its scaler: the counts, the members of the gate and the budget. The lists of
-- HPAs are written back, since the scaler patched them in place.
unfoldable pub tally : {S : Type 0} → Bool → Pass S → Workload → Scaled S → Pass S
tally waves p w a = elim (a.result) [
  | err _ ↦ record p {
    failed = p.failed + 1;
    hpas = insert (meta w).namespace a.hpas p.hpas;
    state = a.state;
  }
  | ok r ↦
      let members =
        if waves && wave_gates a.workload r
        then p.gate_members ++ (a.workload ∷ [])
        else p.gate_members in
      let stats =
        if is_scaled_down_by_lights_out a.workload
        then record_scaled_workload p.stats a.workload
        else p.stats in
      record p {
        stats = stats;
        processed = if r.skipped then p.processed else p.processed + 1;
        skipped = if r.skipped then p.skipped + 1 else p.skipped;
        budget =
            if r.skipped
            then p.budget
            else if ltb_ℤ (pos 0) p.budget
            then p.budget -ℤ pos 1
            else p.budget;
        gate_members = members;
        hpas = insert (meta w).namespace a.hpas p.hpas;
        state = a.state;
      }
]

-- The budget ran out on this workload.
abbrev pub spent : {S : Type 0} → Pass S → Pass S → Bool
spent before after =
    ltb before.processed after.processed
    && ltb_ℤ (pos 0) before.budget
    && eqb_ℤ after.budget (pos 0)

module _ (c : Cluster) (cfg : Config) (waves : Bool) (timeout : ℤ) (total : ℕ) where
  -- The wave boundary in front of a workload: the pass after it, and whether scaling holds.
  unfoldable pub cross : Pass c.client.State → Workload → Pass c.client.State × Bool
  cross p w =
      let (progress, hold) =
        wave_gate p.progress p.gate_wave p.gate_members cfg.scale_up timeout cfg.now in
      if waves && not (eqb_ℤ (sync_wave w) p.gate_wave)
      then (if hold then (record p { progress = progress }, true) else (
        record p { progress = progress; gate_wave = sync_wave w; gate_members = [] },
        false,
      ))
      else (p, false)

  -- One call of a typed scaler for a workload, and its tally.
  unfoldable pub visit : Pass c.client.State → Workload → Pass c.client.State
  unfolding scale_one
  visit p w = tally waves p w (
      scale_one c.client w cfg.schedule_name cfg.scale_up (hpas_of (meta w).namespace p.hpas)
        p.state)

  -- The loop over the workloads.
  unfoldable pub scale_loop : Pass c.client.State → List Workload → Ended × Pass c.client.State
  scale_loop p [] = (done (report p 0 false false p.progress), p)
  scale_loop p (w ∷ ws) =
      let (p', hold) = cross p w in
      let p'' = visit p' w in
      let rest = scale_loop p'' ws in
      if c.cancelled p.state
      then (cancelled (report p 0 false false none), p)
      else if hold
      then (done (report p' total false true p'.progress), p')
      else if spent p' p'' && ltb 0 (length ws)
      then (done (report p'' total true false p''.progress), p'')
      else rest

abbrev first_wave : List Workload → ℤ
first_wave [] = pos 0
first_wave (w ∷ ws) = sync_wave w

module _ (c : Cluster) where
  -- The HPA lists, fetched once for each namespace; a list that fails is left out.
  fetch_hpas : List String → c.client.State → Dict HpaList
  fetch_hpas [] s = []
  fetch_hpas (ns ∷ more) s =
      let rest = fetch_hpas more s in
      elim (list_hpas c ns s) [ err _ ↦ rest | ok l ↦ insert ns l rest ]

  -- The pass in front of the first workload.
  unfoldable pub start : Config → List Workload → Bool → c.client.State → Pass c.client.State
  unfolding fetch_hpas
  start cfg ws waves s = record {
    stats = count_managed_workloads ws;
    processed = 0;
    failed = 0;
    skipped = 0;
    budget = initial_budget cfg.rate_limit;
    progress = if waves then cfg.wave_progress else none;
    gate_wave = if waves then first_wave ws else pos 0;
    gate_members = [];
    hpas = fetch_hpas cfg.namespaces s;
    state = s;
  }

  -- The pass over the workloads that were collected.
  unfoldable pub scale_collected :
      Config → List Workload → c.client.State → Ended × Pass c.client.State
  unfolding start
  scale_collected cfg ws s =
      let (waves, timeout) = sync_wave_settings cfg.argo_cd in
      let sorted = if waves then sort_workloads_by_wave cfg.scale_up ws else ws in
      scale_loop c cfg waves timeout (length ws) (start cfg sorted waves s) sorted

  -- `scaleWorkloads`
  unfoldable pub scale_workloads : Config → c.client.State → Ended × c.client.State
  unfolding scale_collected
  scale_workloads cfg s =
      let (found, s') =
        collect_workloads c cfg.filters cfg.schedule_name cfg.transfer_ownership cfg.namespaces s in
      elim found [
        | err e ↦ (failed e, s')
        | ok ws ↦ let (r, p) = scale_collected cfg ws s' in (r, p.state)
      ]
