-- ===== src/Batcher/Stats.antt =====
-- The status counts of a pass: of each type, no more workloads are scaled than are managed.
use lightsout.Base.{
  ℕ, ◌+◌, ◌≤◌, ◌≡◌, refl, ap, ◌∙◌, ◌&&◌, Bool, List, [], ◌∷◌, arith, inl, inr, Result-cases, String,
  Bool-cases, ltb, length,
}
use lightsout.Base.Int.{ℤ}
use lightsout.Kube.Objects.{HpaList}
use lightsout.Kube.Client.{Client}
use lightsout.Kube.Cluster.{Cluster}
use lightsout.Workload.{
  WorkloadType, Workload, of_deployment, of_stateful_set, of_cron_job, kind, meta,
  is_scaled_down_by_lights_out,
}
use lightsout.Workload.Counts.{
  managed_of, scaled_of, is_one, how_many_of, managed-record_scaled, scaled-record_scaled,
  count_managed_lem,
}
use lightsout.SyncWave.Sort.{how_many-sort}
use lightsout.Batcher.Stops.{in_order}
use lightsout.Batcher.{
  Config, ScaleWorkloadsResult, Pass, Scaled, done, cross, visit, tally, scale_one, spent, hpas_of,
  scale_loop, start, scale_collected,
}

-- A scaler returns a workload of the type that it was given.
kind-scale_one :
    (c : Client) (w : Workload) (name : String) (up : Bool) (hpas : HpaList) (s : c.State)
    → kind (scale_one c w name up hpas s).workload ≡ kind w
unfolding scale_one
kind-scale_one c (of_deployment d) name up hpas s = refl
kind-scale_one c (of_stateful_set d) name up hpas s = refl
kind-scale_one c (of_cron_job j) name up hpas s = refl

-- The counts of the result that a pass ends with.
same_stats : {a r : ScaleWorkloadsResult} → done a ≡ done r → r.stats ≡ a.stats
same_stats h = cc

module _ (k : WorkloadType) where
  tally_stats :
      {S : Type 0} (waves : Bool) (p : Pass S) (w : Workload) (a : Scaled S)
      → (managed_of k (tally waves p w a).stats ≡ managed_of k p.stats)
        × (scaled_of k (tally waves p w a).stats ≤ scaled_of k p.stats + is_one k (kind a.workload))
  unfolding tally
  tally_stats waves p w a = elim (Result-cases a.result) [
    | inr (x, e) ↦ rw (e, tally) (refl, omega arith)
    | inl (r, e) ↦ elim (Bool-cases (is_scaled_down_by_lights_out a.workload)) [
      | inl down ↦
          rw (e, down, tally)
            (
              managed-record_scaled k p.stats a.workload,
              omega (arith, scaled-record_scaled k p.stats a.workload),
            )
      | inr up ↦ rw (e, up, tally) (refl, omega arith)
    ]
  ]

  module _ (c : Cluster) (cfg : Config) (waves : Bool) (timeout : ℤ) (total : ℕ) where
    visit_stats :
        (p : Pass c.client.State) (w : Workload)
        → (managed_of k (visit c cfg waves timeout total p w).stats ≡ managed_of k p.stats)
          × (scaled_of k (visit c cfg waves timeout total p w).stats
              ≤ scaled_of k p.stats + is_one k (kind w))
    unfolding visit
    visit_stats p w =
        let hpas = hpas_of (meta w).namespace p.hpas in
        rw (← kind-scale_one c.client w cfg.schedule_name cfg.scale_up hpas p.state)
          (tally_stats waves p w _)

    cross_stats :
        (p : Pass c.client.State) (w : Workload)
        → (cross c cfg waves timeout total p w).0.stats ≡ p.stats
    unfolding cross
    cross_stats p w = ground arith

    scale_loop_stats :
        (p : Pass c.client.State) (ws : List Workload) (r : ScaleWorkloadsResult)
        → (scale_loop c cfg waves timeout total p ws).0 ≡ done r
        → (managed_of k r.stats ≡ managed_of k p.stats)
          × (scaled_of k r.stats ≤ scaled_of k p.stats + how_many_of k ws)
    unfolding scale_loop
    scale_loop_stats p [] r h = rw (same_stats h) (refl, omega arith)
    scale_loop_stats p (w ∷ ws) r h =
        let p' = (cross c cfg waves timeout total p w).0 in
        let p'' = visit c cfg waves timeout total p' w in
        let managed' = ap (managed_of k) (cross_stats p w) in
        let scaled' = ap (scaled_of k) (cross_stats p w) in
        let (managed, scaled) = visit_stats p' w in
        elim (Bool-cases (c.cancelled p.state)) [
          | inl stop ↦ (let e = rw (stop, scale_loop) at h in cc)
          | inr on ↦ elim (Bool-cases (cross c cfg waves timeout total p w).1) [
            | inl hold ↦
                rw (same_stats (rw (on, hold, scale_loop) at h)) (managed', omega (arith, scaled'))
            | inr passed ↦ elim (Bool-cases (spent p' p'' && ltb 0 (length ws))) [
              | inl full ↦
                  rw (same_stats (rw (on, passed, full, scale_loop) at h))
                    (managed ∙ managed', omega (arith, scaled, scaled'))
              | inr more ↦
                  let rest = scale_loop_stats p'' ws r (rw (on, passed, more, scale_loop) at h) in
                  (rest.0 ∙ managed ∙ managed', omega (arith, rest.1, scaled, scaled'))
            ]
          ]
        ]

how_many-in_order :
    (k : WorkloadType) (cfg : Config) (ws : List Workload)
    → how_many_of k (in_order cfg ws) ≡ how_many_of k ws
how_many-in_order k cfg ws = ground (arith, how_many-sort k cfg.scale_up ws)

-- A pass that ends without an error reports, of each type, no more workloads as scaled than as
-- managed; and it reports as managed every workload of the type that was collected.
pub scaled_within_managed :
    (k : WorkloadType) (c : Cluster) (cfg : Config) (ws : List Workload) (s : c.client.State)
    (r : ScaleWorkloadsResult)
    → (scale_collected c cfg ws s).0 ≡ done r
    → (scaled_of k r.stats ≤ managed_of k r.stats) × (managed_of k r.stats ≡ how_many_of k ws)
unfolding scale_collected start
scaled_within_managed k c cfg ws s r ended =
    let sorted = in_order cfg ws in
    let (managed, scaled) =
      scale_loop_stats k c cfg _ _ _ (start c cfg sorted _ s) sorted r ended in
    let at_first = count_managed_lem k sorted in
    (
      omega (arith, managed, scaled, at_first.0, at_first.1),
      managed ∙ at_first.0 ∙ how_many-in_order k cfg ws,
    )
