-- ===== src/Batcher/Stops.antt =====
-- Theorems on a whole pass: what it accounts for, its budget, and its limits.
use lightsout.Base.{
  ℕ, suc, ◌≤◌, ◌≡◌, refl, inl, inr, true, false, ◌&&◌, none, List, [], ◌∷◌, arith, length,
  Result-cases, ltb, eqb, if◌then◌else◌,
}
use lightsout.Base.Int.{ℤ, pos, negsuc}
use native.Mathlib.Nat.{zero-add}
use lightsout.Kube.Cluster.{Cluster}
use lightsout.Workload.{Workload, meta}
use lightsout.SyncWave.{sort_workloads_by_wave}
use lightsout.SyncWave.Sort.{length-sort}
use lightsout.Batcher.{
  Config, ScaleWorkloadsResult, stopped_early, Pass, done, cross, visit, tally, scale_one, hpas_of,
  scale_loop, start, scale_collected, initial_budget, sync_wave_settings,
}
use lightsout.Batcher.Bounds.{
  accounted, scale_loop-accounted, scale_loop-total, scale_loop-budget, scale_loop_unlimited,
}

-- The workloads in the order in which a pass visits them.
abbrev pub in_order : Config → List Workload → List Workload
in_order cfg ws =
    if (sync_wave_settings cfg.argo_cd).0 then sort_workloads_by_wave cfg.scale_up ws else ws

length-in_order : (cfg : Config) (ws : List Workload) → length (in_order cfg ws) ≡ length ws
length-in_order cfg ws = ground (arith, length-sort cfg.scale_up ws)

module _ (c : Cluster) (cfg : Config) (ws : List Workload) (s : c.client.State)
    (r : ScaleWorkloadsResult) (ended : (scale_collected c cfg ws s).0 ≡ done r) where
  -- A pass that ends without an error accounts for no more workloads than were collected, each
  -- processed, failed or skipped; and it reports that it stopped early exactly if it accounts for
  -- fewer than all.
  pub pass_accounts : (accounted r ≤ length ws) × (stopped_early r ≡ ltb (accounted r) (length ws))
  unfolding scale_collected start
  pass_accounts = rw (← length-in_order cfg ws) (
      rw (zero-add (length (in_order cfg ws))) at (
        scale_loop-accounted c cfg _ _ _ (start c cfg (in_order cfg ws) _ s) (in_order cfg ws) r
          ended))

  -- A pass that stopped early reports how many workloads were collected.
  pub pass_total : stopped_early r ≡ true → r.total_workloads ≡ length ws
  unfolding scale_collected
  pass_total k =
      scale_loop-total c cfg _ _ (length ws) (start c cfg (in_order cfg ws) _ s) (in_order cfg ws) r
        ended k

  -- With a positive batch size, no more workloads are scaled than the batch holds, and the pass
  -- reports its batch limit exactly if the batch is full and workloads remain.
  pub pass_within_budget :
      (n : ℕ)
      → initial_budget cfg.rate_limit ≡ pos (suc n)
      → (r.total_processed ≤ suc n)
        × (r.batch_limit_reached ≡ (eqb r.total_processed (suc n) && ltb (accounted r) (length ws)))
  unfolding scale_collected start
  pass_within_budget n size = rw (← length-in_order cfg ws) (
      rw (zero-add (length (in_order cfg ws))) at (
        scale_loop-budget c cfg _ _ _
          (start c cfg (in_order cfg ws) (sync_wave_settings cfg.argo_cd).0 s) (in_order cfg ws)
          (suc n) (suc n) r size (omega arith) (inl (omega arith)) ended))

  -- Without a positive batch size the batch limit is never reached.
  pass_unlimited : initial_budget cfg.rate_limit ≡ negsuc 0 → r.batch_limit_reached ≡ false
  unfolding scale_collected start
  pass_unlimited size =
      scale_loop_unlimited c cfg _ _ _ (start c cfg (in_order cfg ws) _ s) (in_order cfg ws) r size
        ended

module _ (c : Cluster) (cfg : Config) (timeout : ℤ) (total : ℕ) where
  -- With sync waves off no gate is ever asked.
  visit_progress :
      (p : Pass c.client.State) (w : Workload)
      → (visit c cfg false timeout total p w).progress ≡ p.progress
  unfolding visit tally
  visit_progress p w =
      elim (Result-cases
        (scale_one c.client w cfg.schedule_name cfg.scale_up (hpas_of (meta w).namespace p.hpas)
          p.state).result) [ inl (a, e) ↦ rw (e, tally) refl | inr (x, e) ↦ rw (e, tally) refl ]

  cross_waves_off :
      (p : Pass c.client.State) (w : Workload) → cross c cfg false timeout total p w ≡ (p, false)
  unfolding cross
  cross_waves_off p w = refl

  scale_loop_waves_off :
      (p : Pass c.client.State) (ws : List Workload) (r : ScaleWorkloadsResult)
      → p.progress ≡ none
      → (scale_loop c cfg false timeout total p ws).0 ≡ done r
      → (r.wave_gate_reached ≡ false) × (r.wave_progress ≡ none)
  unfolding scale_loop
  scale_loop_waves_off p [] r e h = ground arith
  scale_loop_waves_off p (w ∷ ws) r e h =
      let p' = visit c cfg false timeout total p w in
      ground (arith, cross_waves_off p w, visit_progress p w, scale_loop_waves_off p' ws r)

start_progress :
    (c : Cluster) (cfg : Config) (ws : List Workload) (s : c.client.State)
    → (start c cfg ws false s).progress ≡ none
unfolding start
start_progress c cfg ws s = refl

-- With sync waves off no pass stops at a wave, and the progress of an earlier one is dropped.
pass_waves_off :
    (c : Cluster) (cfg : Config) (ws : List Workload) (s : c.client.State)
    (r : ScaleWorkloadsResult)
    → (sync_wave_settings cfg.argo_cd).0 ≡ false
    → (scale_collected c cfg ws s).0 ≡ done r
    → (r.wave_gate_reached ≡ false) × (r.wave_progress ≡ none)
unfolding scale_collected
pass_waves_off c cfg ws s r off ended =
    scale_loop_waves_off c cfg _ _ (start c cfg ws false s) ws r (start_progress c cfg ws s)
      (rw off at ended)
