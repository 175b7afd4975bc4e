-- ===== src/Tests/Waves.antt =====
-- Sync waves on concrete workloads.
use lightsout.Base.{
  String, ◌≡◌, refl, true, false, not, ◌||◌, none, some, List, [], ◌∷◌, length, String-discrete,
}
use lightsout.Base.Dict.{lookup, get}
use lightsout.Base.Int.{ℤ, pos, negsuc, leb_ℤ, ◌-ℤ◌}
use lightsout.Base.Decimal.{parse_int}
use lightsout.Constants.{argo_cd_sync_wave_annotation}
use lightsout.Workload.{Workload, of_deployment, workload_settled}
use lightsout.Base.Text.{trim_space}
use lightsout.SyncWave.{
  WaveProgress, sync_wave, at_most, sort_workloads_by_wave, wave_settled, waiting_since, wave_gate,
}
use lightsout.SyncWave.Sort.{IsOrdered, sort_waves}
use lightsout.SyncWave.Gate.{gate_wait_bounded}
use lightsout.Kube.Memory.{running}
use lightsout.Batcher.{Config, ScaleWorkloadsResult, start, scale_collected, sync_wave_settings}
use lightsout.Batcher.Waves.{IsHeldPass, walk_through, held_pass}
use lightsout.Tests.Passes.{small, downscale, outcome, run_pass}
use mathlib.Core.List.{Perm}

run_waves : Unit {0}
unfolding sync_wave trim_space at_most sort_workloads_by_wave wave_settled workload_settled
    waiting_since wave_gate parse_int String-discrete get lookup ◌-ℤ◌
run_waves = tt

-- A deployment of a wave, with so many of its three replicas ready.
abbrev at_wave : String → String → ℤ → Workload
at_wave name wave ready = of_deployment (record {
  meta = record {
    name = name;
    namespace = "team";
    labels = [];
    annotations = (argo_cd_sync_wave_annotation, wave) ∷ [];
    owner_references = [];
    generation = pos 2;
  };
  replicas = some (pos 3);
  observed_generation = pos 2;
  status_replicas = pos 3;
  ready_replicas = ready;
})

wave_tests :
    (sync_wave (at_wave "db" " -5 " (pos 3)) ≡ negsuc 4)
    × (sync_wave (at_wave "app" "soon" (pos 3)) ≡ pos 0)
unfolding run_waves
wave_tests = (refl, refl)

abbrev three : List Workload
three = at_wave "app" "1" (pos 3) ∷ at_wave "db" "-5" (pos 3) ∷ at_wave "api" "1" (pos 3) ∷ []

sorted_names :
    sort_workloads_by_wave true three
    ≡ at_wave "db" "-5" (pos 3) ∷ at_wave "api" "1" (pos 3) ∷ at_wave "app" "1" (pos 3) ∷ []
unfolding run_waves
sorted_names = refl

sort_waves_example :
    Perm (sort_workloads_by_wave false three) three
    × IsOrdered false (sort_workloads_by_wave false three)
sort_waves_example = sort_waves false three

abbrev settled : List Workload
settled = at_wave "db" "-5" (pos 3) ∷ []

abbrev pub starting : List Workload
starting = at_wave "db" "-5" (pos 1) ∷ []

abbrev since_ten : WaveProgress
since_ten = record { wave = negsuc 4; since = pos 10 }

gate_wait_bounded_example :
    let held = (wave_gate none (negsuc 4) starting true (pos 100) (pos 10)).0 in
    wave_gate held (negsuc 4) starting true (pos 100) (pos 110) ≡ (
      held,
      not (
          (wave_settled starting true).0
          || leb_ℤ (pos 100) (pos 110 -ℤ waiting_since none (negsuc 4) (pos 10))),
    )
unfolding run_waves
gate_wait_bounded_example =
    gate_wait_bounded none (negsuc 4) starting starting true (pos 100) (pos 10) (pos 110) refl

-- Two waves on the way down, of which the first to go has pods left.
abbrev two_waves : List Workload
two_waves = at_wave "db" "0" (pos 3) ∷ at_wave "web" "1" (pos 3) ∷ []

abbrev by_waves : Config
by_waves = record (downscale none) {
  argo_cd = some (record { namespace = ""; warmup_timeout = none; sync_waves = true });
}

abbrev held_back : ScaleWorkloadsResult
held_back = outcome (scale_collected small by_waves two_waves running).0

held_pass_example :
    IsHeldPass false
      (λ before.
        (walk_through small by_waves
          (sync_wave_settings by_waves.argo_cd).1
          (length two_waves)
          (start small by_waves (sort_workloads_by_wave false two_waves) true running)
          before).state)
      (sort_workloads_by_wave false two_waves)
      (scale_collected small by_waves two_waves running).1.state
unfolding run_pass
held_pass_example = held_pass small by_waves two_waves running held_back refl refl refl
