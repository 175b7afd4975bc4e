-- ===== src/SyncWave.antt =====
-- internal/controller/syncwave.go: ArgoCD sync waves order the scaling, and a gate at each wave
-- boundary holds the next wave back until the last one has settled or a timeout has passed.
pub mod Sort
pub mod Gate
use Prim.Native.Char.{Char, code}
use Prim.Native.String
use Prim.Native.Nat.{Ordering}
use lightsout.Base.{
  ℕ, String, Bool, true, false, ◌&&◌, ◌||◌, Option, none, some, List, [], ◌∷◌, ◌<>◌,
}
use lightsout.Base.{◌==◌, if◌then◌else◌, leb, eqb}
use lightsout.Base.Dict.{get}
use lightsout.Base.Text.{trim_space}
use lightsout.Base.Int.{ℤ, pos, ltb_ℤ, leb_ℤ, eqb_ℤ, ◌-ℤ◌}
use lightsout.Base.Decimal.{atoi}
use lightsout.Constants.{argo_cd_sync_wave_annotation}
use lightsout.Workload.{
  Workload, of_deployment, of_stateful_set, of_cron_job, meta, workload_annotations,
  workload_settled,
}
use lightsout.Scaler.Outcome.{
  ScaleResult, skip_reason_different_schedule, skip_reason_not_managed, skip_reason_user_parked,
}

-- `syncWave`: 0 without an annotation, or where its value is no integer.
unfoldable pub sync_wave : Workload → ℤ
sync_wave w = elim (atoi (trim_space (get argo_cd_sync_wave_annotation (workload_annotations w)))) [
  | none ↦ pos 0
  | some n ↦ n
]

-- `waveBefore`
abbrev pub wave_before : ℤ → ℤ → Bool → Bool
wave_before a b scale_up = if scale_up then ltb_ℤ a b else ltb_ℤ b a

-- The comparison of `sortWorkloadsByWave`: `true` where it returns a number that is not positive.
unfoldable pub at_most : Bool → Workload → Workload → Bool
at_most scale_up a b =
    if eqb_ℤ (sync_wave a) (sync_wave b)
    then elim (String.compare (meta a).namespace (meta b).namespace) [
      | Ordering.lt ↦ true
      | Ordering.gt ↦ false
      | Ordering.eq ↦ elim (String.compare (meta a).name (meta b).name) [
        | Ordering.gt ↦ false
        | _ ↦ true
      ]
    ]
    else wave_before (sync_wave a) (sync_wave b) scale_up

insert_workload : Bool → Workload → List Workload → List Workload
insert_workload up w [] = w ∷ []
insert_workload up w (v ∷ vs) = if at_most up w v then w ∷ v ∷ vs else v ∷ insert_workload up w vs

-- `sortWorkloadsByWave`. `slices.SortStableFunc` is a stable sort; here it is insertion.
unfoldable pub sort_workloads_by_wave : Bool → List Workload → List Workload
unfolding insert_workload
sort_workloads_by_wave up [] = []
sort_workloads_by_wave up (w ∷ ws) = insert_workload up w (sort_workloads_by_wave up ws)

-- `waveGates`
unfoldable pub wave_gates : Workload → ScaleResult → Bool
wave_gates (of_cron_job j) r = false
wave_gates w r =
    if r.skipped
    then (if r.skip_reason == skip_reason_different_schedule
          || r.skip_reason == skip_reason_not_managed
          || r.skip_reason == skip_reason_user_parked
        then false
        else true)
    else true

abbrev type_name : Workload → String
type_name (of_deployment d) = "Deployment"
type_name (of_stateful_set d) = "StatefulSet"
type_name (of_cron_job j) = "CronJob"

-- `waveSettled`, with the name of the first member that has not settled
unfoldable pub wave_settled : List Workload → Bool → Bool × String
wave_settled [] scale_up = (true, "")
wave_settled (w ∷ ws) scale_up =
    let rest = wave_settled ws scale_up in
    if workload_settled w scale_up
    then rest
    else (false, type_name w <> " " <> (meta w).namespace <> "/" <> (meta w).name)

-- `WaveProgress` of api/v1alpha1/lightsoutschedule_types.go
pub record WaveProgress : Type 0 where
  pub wave : ℤ
  pub since : ℤ

-- When the wait for this wave began.
unfoldable pub waiting_since : Option WaveProgress → ℤ → ℤ → ℤ
waiting_since none wave now = now
waiting_since (some p) wave now = if eqb_ℤ p.wave wave then p.since else now

passed_already : Option WaveProgress → ℤ → Bool → Bool
passed_already none wave scale_up = false
passed_already (some p) wave scale_up = wave_before wave p.wave scale_up

-- `waveGate`: the progress to persist, and whether scaling holds at the boundary.
unfoldable pub wave_gate :
    Option WaveProgress → ℤ → List Workload → Bool → ℤ → ℤ → Option WaveProgress × Bool
unfolding waiting_since passed_already
wave_gate prev wave members scale_up timeout now =
    if passed_already prev wave scale_up
    then (prev, false)
    else let since = waiting_since prev wave now in
      let progress : WaveProgress = record { wave = wave; since = since } in
      if (wave_settled members scale_up).0
      then (some progress, false)
      else if leb_ℤ timeout (now -ℤ since)
      then (some progress, false)
      else (some progress, true)
