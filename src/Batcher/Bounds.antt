-- ===== src/Batcher/Bounds.antt =====
-- How many workloads a pass visits, and how many of them it scales.
use lightsout.Base.{
  ℕ, suc, ◌+◌, ◌≤◌, ◌<◌, ◌≡◌, refl, ◌⊎◌, inl, inr, Bool, true, false, ◌&&◌, List, [], ◌∷◌, arith,
  length, Bool-cases, Result-cases, ltb, if◌then◌else◌, zero, eqb,
}
use lightsout.Base.Int.{ℤ, pos, negsuc, ltb_ℤ, ◌-ℤ◌}
use lightsout.Kube.Cluster.{Cluster}
use lightsout.Workload.{Workload}
use lightsout.Batcher.{
  Config, ScaleWorkloadsResult, stopped_early, Pass, done, Scaled, tally, cross, visit, scale_loop,
}

-- The workloads that a pass has visited, and those that a result accounts for.
abbrev pub visited : {S : Type 0} → Pass S → ℕ
visited p = p.processed + p.failed + p.skipped

abbrev pub accounted : ScaleWorkloadsResult → ℕ
accounted r = r.total_processed + r.total_failed + r.total_skipped

-- The fields of a pass that a wave boundary does not touch.
pub record SameCounts {S : Type 0} (p q : Pass S) : Type 0 where
  pub processed : q.processed ≡ p.processed
  pub failed : q.failed ≡ p.failed
  pub skipped : q.skipped ≡ p.skipped
  pub budget : q.budget ≡ p.budget

tally-visited :
    {S : Type 0} (waves : Bool) (p : Pass S) (w : Workload) (a : Scaled S)
    → visited (tally waves p w a) ≡ visited p + 1
unfolding tally
tally-visited waves p w a = elim (Result-cases a.result) [
  | inl (r, e) ↦ rw (e, tally) (ground arith)
  | inr (x, e) ↦ rw (e, tally) (ground arith)
]

-- What the budget is after one more scale operation.
abbrev less_one : ℤ → ℤ
less_one b = if ltb_ℤ (pos 0) b then b -ℤ pos 1 else b

-- A workload is scaled and uses the budget, or neither.
tally-budget :
    {S : Type 0} (waves : Bool) (p : Pass S) (w : Workload) (a : Scaled S)
    → let q = tally waves p w a in
      ((q.processed ≡ p.processed) × (q.budget ≡ p.budget))
      ⊎ ((q.processed ≡ p.processed + 1) × (q.budget ≡ less_one p.budget))
unfolding tally
tally-budget waves p w a = elim (Result-cases a.result) [
  | inl (r, e) ↦ elim (Bool-cases r.skipped) [
    | inl yes' ↦ inl (rw (e, tally) (rw yes' refl), rw (e, tally) (rw yes' refl))
    | inr no' ↦ inr (rw (e, tally) (rw no' refl), rw (e, tally) (rw no' refl))
  ]
  | inr (x, e) ↦ inl (rw (e, tally) refl, rw (e, tally) refl)
]

module _ (c : Cluster) (cfg : Config) (waves : Bool) (timeout : ℤ) (total : ℕ) where
  pub cross-SameCounts :
      (p : Pass c.client.State) (w : Workload)
      → SameCounts p (cross c cfg waves timeout total p w).0
  unfolding cross
  cross-SameCounts p w = ground arith

  visit-visited :
      (p : Pass c.client.State) (w : Workload)
      → visited (visit c cfg waves timeout total p w) ≡ visited p + 1
  unfolding visit
  visit-visited p w = tally-visited waves p w _

  visit-budget :
      (p : Pass c.client.State) (w : Workload)
      → let q = visit c cfg waves timeout total p w in
        ((q.processed ≡ p.processed) × (q.budget ≡ p.budget))
        ⊎ ((q.processed ≡ p.processed + 1) × (q.budget ≡ less_one p.budget))
  unfolding visit
  visit-budget p w = tally-budget waves p w _

  -- A pass that ends accounts for the workloads it visited, and it stopped early exactly if it
  -- did not visit them all.
  pub scale_loop-accounted :
      (p : Pass c.client.State) (ws : List Workload) (r : ScaleWorkloadsResult)
      → (scale_loop c cfg waves timeout total p ws).0 ≡ done r
      → (accounted r ≤ visited p + length ws)
        × (stopped_early r ≡ ltb (accounted r) (visited p + length ws))
  unfolding scale_loop
  scale_loop-accounted p [] r h = ground arith
  scale_loop-accounted p (w ∷ ws) r h =
      let (p', hold) = cross c cfg waves timeout total p w in
      let p'' = visit c cfg waves timeout total p' w in
      ground (arith, cross-SameCounts p w, visit-visited p' w, scale_loop-accounted p'' ws r)

  dec_pos : (b : ℕ) → pos (suc b) -ℤ pos 1 ≡ pos b
  unfolding ◌-ℤ◌
  dec_pos b = ground arith

  -- With a budget of `b` operations left of `n`: no more than `n` are made, and the pass reports
  -- its batch limit exactly if all were made before every workload was visited.
  pub scale_loop-budget :
      (p : Pass c.client.State) (ws : List Workload) (n b : ℕ) (r : ScaleWorkloadsResult)
      → p.budget ≡ pos b
      → p.processed + b ≡ n
      → (0 < b) ⊎ (length ws ≡ 0)
      → (scale_loop c cfg waves timeout total p ws).0 ≡ done r
      → (r.total_processed ≤ n)
        × (r.batch_limit_reached
            ≡ (eqb r.total_processed n && ltb (accounted r) (visited p + length ws)))
  unfolding scale_loop
  scale_loop-budget p [] n b r e k left h = ground arith
  scale_loop-budget p (w ∷ ws) n zero r e k left h = absurd (omega arith)
  scale_loop-budget p (w ∷ ws) n (suc b) r e k left h =
      let (p', hold) = cross c cfg waves timeout total p w in
      let p'' = visit c cfg waves timeout total p' w in
      ground (
        arith,
        cross-SameCounts p w,
        visit-visited p' w,
        visit-budget p' w,
        dec_pos b,
        scale_loop-budget p'' ws n (suc b) r,
        scale_loop-budget p'' ws n b r,
      )

  -- Without a budget the batch limit is never reached.
  pub scale_loop_unlimited :
      (p : Pass c.client.State) (ws : List Workload) (r : ScaleWorkloadsResult)
      → p.budget ≡ negsuc 0
      → (scale_loop c cfg waves timeout total p ws).0 ≡ done r
      → r.batch_limit_reached ≡ false
  unfolding scale_loop
  scale_loop_unlimited p [] r e h = ground arith
  scale_loop_unlimited p (w ∷ ws) r e h =
      let (p', hold) = cross c cfg waves timeout total p w in
      let p'' = visit c cfg waves timeout total p' w in
      ground (arith, cross-SameCounts p w, visit-budget p' w, scale_loop_unlimited p'' ws r)

  -- A pass that stopped early reports how many workloads were collected.
  pub scale_loop-total :
      (p : Pass c.client.State) (ws : List Workload) (r : ScaleWorkloadsResult)
      → (scale_loop c cfg waves timeout total p ws).0 ≡ done r
      → stopped_early r ≡ true
      → r.total_workloads ≡ total
  unfolding scale_loop
  scale_loop-total p [] r h k = ground arith
  scale_loop-total p (w ∷ ws) r h k =
      let (p', hold) = cross c cfg waves timeout total p w in
      let p'' = visit c cfg waves timeout total p' w in ground (arith, scale_loop-total p'' ws r)
