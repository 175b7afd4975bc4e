-- ===== src/Batcher/Waves.antt =====
-- What a pass that the gate of a wave holds has done: the hold of the loop of `scaleWorkloads` in
-- internal/controller/batcher.go.
use lightsout.Base.{
  ℕ, ◌<◌, ◌≡◌, refl, ◌⊎◌, inl, inr, ◌∙◌, ap, Bool, true, false, ◌&&◌, List, [], ◌∷◌, ◌++◌, All,
  arith, length, Bool-cases, Result-cases, ltb,
}
use lightsout.Base.Int.{ℤ, eqb_ℤ}
use lightsout.Kube.Cluster.{Cluster}
use lightsout.Workload.{Workload, meta}
use lightsout.SyncWave.{sync_wave, wave_before, sort_workloads_by_wave}
use lightsout.SyncWave.Sort.{IsOrdered, sort_waves}
use lightsout.Batcher.{
  Config, ScaleWorkloadsResult, Pass, Ended, done, cancelled, failed, tally, cross, visit,
  scale_one, hpas_of, spent, scale_loop, start, scale_collected, sync_wave_settings,
}

-- Every workload of the list is of a wave that comes after that one.
abbrev pub IsBehind : Bool → ℤ → List Workload → Type 0
IsBehind up wave = All (λ w. wave_before wave (sync_wave w) up ≡ true)

abbrev NotAhead : Bool → ℤ → List Workload → Type 0
NotAhead up wave = All (λ w. wave_before (sync_wave w) wave up ≡ false)

next_wave_after :
    (up : Bool) (g a : ℤ)
    → wave_before a g up ≡ false
    → eqb_ℤ a g ≡ false
    → wave_before g a up ≡ true
next_wave_after true g a h k = ground arith
next_wave_after false g a h k = ground arith

after_trans :
    (up : Bool) (g a b : ℤ)
    → wave_before g a up ≡ true
    → wave_before b a up ≡ false
    → wave_before g b up ≡ true
after_trans true g a b h k = ground arith
after_trans false g a b h k = ground arith

trans_after :
    (up : Bool) (g a b : ℤ)
    → wave_before a g up ≡ false
    → wave_before a b up ≡ true
    → wave_before g b up ≡ true
trans_after true g a b h k = ground arith
trans_after false g a b h k = ground arith

after_trans-IsBehind :
    (up : Bool) (g a : ℤ) (ws : List Workload)
    → wave_before g a up ≡ true
    → NotAhead up a ws
    → IsBehind up g ws
after_trans-IsBehind up g a [] h k = tt
after_trans-IsBehind up g a (w ∷ ws) h (k, ks) =
    (after_trans up g a (sync_wave w) h k, after_trans-IsBehind up g a ws h ks)

trans_after-IsBehind :
    (up : Bool) (g a : ℤ) (ws : List Workload)
    → wave_before a g up ≡ false
    → IsBehind up a ws
    → IsBehind up g ws
trans_after-IsBehind up g a [] h k = tt
trans_after-IsBehind up g a (w ∷ ws) h (k, ks) =
    (trans_after up g a (sync_wave w) h k, trans_after-IsBehind up g a ws h ks)

-- The workloads of a pass in two parts, the visited ones and the ones behind the gate: what the
-- visits leave is the state, and some are behind the gate, each of a wave after every visited one's.
pub record IsHeldPass {S : Type 0} (up : Bool) (walked : List Workload → S) (ws : List Workload)
    (state : S) : Type 0 where
  pub before : List Workload
  pub behind : List Workload
  pub whole : ws ≡ before ++ behind
  pub walk : state ≡ walked before
  pub waits : 0 < length behind
  pub later : All (λ v. IsBehind up (sync_wave v) behind) before

abbrev at_wave : Ended → Bool
at_wave (done r) = r.wave_gate_reached
at_wave (cancelled r) = false
at_wave (failed e) = false

module _ (c : Cluster) (cfg : Config) (timeout : ℤ) (total : ℕ) where
  -- The visits of a list, one after the other, each after its wave boundary.
  unfoldable pub walk_through : Pass c.client.State → List Workload → Pass c.client.State
  walk_through p [] = p
  walk_through p (w ∷ ws) =
      walk_through (visit c cfg true timeout total (cross c cfg true timeout total p w).0 w) ws

  cross_state :
      (p : Pass c.client.State) (w : Workload)
      → (cross c cfg true timeout total p w).0.state ≡ p.state
  unfolding cross
  cross_state p w = ground arith

  -- A boundary that holds lies in front of another wave.
  cross_holds :
      (p : Pass c.client.State) (w : Workload)
      → (cross c cfg true timeout total p w).1 ≡ true
      → eqb_ℤ (sync_wave w) p.gate_wave ≡ false
  unfolding cross
  cross_holds p w h = ground arith

  -- A boundary that lets a workload pass makes its wave the one that is gated.
  cross_gate :
      (p : Pass c.client.State) (w : Workload)
      → (cross c cfg true timeout total p w).1 ≡ false
      → (cross c cfg true timeout total p w).0.gate_wave ≡ sync_wave w
  unfolding cross
  cross_gate p w h = ground arith

  visit_gate :
      (p : Pass c.client.State) (w : Workload)
      → (visit c cfg true timeout total p w).gate_wave ≡ p.gate_wave
  unfolding visit tally
  visit_gate p w =
      elim (Result-cases
        (scale_one c.client w cfg.schedule_name cfg.scale_up (hpas_of (meta w).namespace p.hpas)
          p.state).result) [ inl (a, e) ↦ rw (e, tally) refl | inr (x, e) ↦ rw (e, tally) refl ]

  -- A pass that ends at a wave holds in front of this workload, or goes on behind it.
  held_cases :
      (p : Pass c.client.State) (w : Workload) (ws : List Workload)
      → at_wave (scale_loop c cfg true timeout total p (w ∷ ws)).0 ≡ true
      → let x = cross c cfg true timeout total p w in
        let q = visit c cfg true timeout total x.0 w in
        ((x.1 ≡ true) × ((scale_loop c cfg true timeout total p (w ∷ ws)).1.state ≡ x.0.state))
        ⊎ ((x.1 ≡ false)
            × (scale_loop c cfg true timeout total p (w ∷ ws)
                ≡ scale_loop c cfg true timeout total q ws))
  unfolding scale_loop
  held_cases p w ws h =
      let x = cross c cfg true timeout total p w in
      let q = visit c cfg true timeout total x.0 w in
      elim (Bool-cases (c.cancelled p.state)) [
        | inl stop ↦ let h1 = rw (stop, scale_loop) at h in cc
        | inr on ↦ elim (Bool-cases x.1) [
          | inl hold ↦ inl (hold, rw (on, hold, scale_loop) refl)
          | inr past ↦ elim (Bool-cases (spent x.0 q && ltb 0 (length ws))) [
            | inl full ↦ let h1 = rw (on, past, full, scale_loop) at h in cc
            | inr more ↦ inr (past, rw (on, past, more, scale_loop) refl)
          ]
        ]
      ]

  all_not_held :
      (p : Pass c.client.State) → at_wave (scale_loop c cfg true timeout total p []).0 ≡ false
  unfolding scale_loop
  all_not_held p = refl

  scale_loop-IsHeldPass :
      (p : Pass c.client.State) (ws : List Workload)
      → IsOrdered cfg.scale_up ws
      → NotAhead cfg.scale_up p.gate_wave ws
      → at_wave (scale_loop c cfg true timeout total p ws).0 ≡ true
      → (x : IsHeldPass cfg.scale_up
          (λ before. (walk_through p before).state)
          ws
          (scale_loop c cfg true timeout total p ws).1.state)
        × IsBehind cfg.scale_up p.gate_wave x.behind
  unfolding walk_through
  scale_loop-IsHeldPass p [] o g h = let e = all_not_held p in cc
  scale_loop-IsHeldPass p (w ∷ ws) (o, os) (g, gs) h =
      let p' = (cross c cfg true timeout total p w).0 in
      let q = visit c cfg true timeout total p' w in
      elim (held_cases p w ws h) [
        | inl (hold, at) ↦
            let next =
              next_wave_after cfg.scale_up p.gate_wave (sync_wave w) g (cross_holds p w hold) in
            (
              record {
                before = [];
                behind = w ∷ ws;
                whole = refl;
                walk = at ∙ cross_state p w;
                waits = omega arith;
                later = tt;
              },
              (next, after_trans-IsBehind cfg.scale_up p.gate_wave (sync_wave w) ws next o),
            )
        | inr (past, same) ↦
            let gate : q.gate_wave ≡ sync_wave w = visit_gate p' w ∙ cross_gate p w past in
            let (x, later) = scale_loop-IsHeldPass q ws os (rw gate o) (rw same at h) in
            let later' : IsBehind cfg.scale_up (sync_wave w) x.behind = rw gate at later in
            (
              record {
                before = w ∷ x.before;
                behind = x.behind;
                whole = ap (λ l. w ∷ l) x.whole;
                walk = ap (λ r. r.1.state) same ∙ x.walk;
                waits = x.waits;
                later = (later', x.later);
              },
              trans_after-IsBehind cfg.scale_up p.gate_wave (sync_wave w) x.behind g later',
            )
      ]

own_wave : (up : Bool) (a : ℤ) → wave_before a a up ≡ false
own_wave true a = ground arith
own_wave false a = ground arith

start-NotAhead :
    (c : Cluster) (cfg : Config) (ws : List Workload) (s : c.client.State)
    → IsOrdered cfg.scale_up ws
    → NotAhead cfg.scale_up (start c cfg ws true s).gate_wave ws
unfolding start
start-NotAhead c cfg [] s o = tt
start-NotAhead c cfg (w ∷ ws) s (o, os) = (own_wave cfg.scale_up (sync_wave w), o)

-- With sync waves on, a pass that reports a wave boundary has visited the workloads of the waves in
-- front of it, one after the other in the order of the waves, and nothing else: its state is what
-- those visits leave, some workload is left, and each that is left is of a wave that comes after
-- every visited one's.
pub held_pass :
    (c : Cluster) (cfg : Config) (ws : List Workload) (s : c.client.State)
    (r : ScaleWorkloadsResult)
    → (sync_wave_settings cfg.argo_cd).0 ≡ true
    → (scale_collected c cfg ws s).0 ≡ done r
    → r.wave_gate_reached ≡ true
    → let sorted = sort_workloads_by_wave cfg.scale_up ws in
      IsHeldPass cfg.scale_up
        (λ before.
          (walk_through c cfg
            (sync_wave_settings cfg.argo_cd).1
            (length ws)
            (start c cfg sorted true s)
            before).state)
        sorted
        (scale_collected c cfg ws s).1.state
unfolding scale_collected
held_pass c cfg ws s r waves ended held =
    let sorted = sort_workloads_by_wave cfg.scale_up ws in
    let o = (sort_waves cfg.scale_up ws).1 in
    let p = start c cfg sorted true s in
    let timeout = (sync_wave_settings cfg.argo_cd).1 in
    let looped : (scale_loop c cfg true timeout (length ws) p sorted).0 ≡ done r =
      rw waves at ended in
    rw waves
      (scale_loop-IsHeldPass c cfg timeout (length ws) p sorted o (start-NotAhead c cfg sorted s o)
        (ap at_wave looped ∙ held)).0
