-- ===== src/Tests/Scaling.antt =====
-- The scalers on the in-memory server.
use lightsout.Base.{
  String, ◌≡◌, refl, true, false, Option, none, some, [], ◌∷◌, arith, ok, String-discrete, ne_of_==,
}
use lightsout.Base.Dict.{Dict, lookup, get, insert, erase}
use lightsout.Base.Int.{ℤ, pos}
use lightsout.Base.Decimal.{itoa, parse_int}
use lightsout.Constants.{
  managed_by_annotation, original_replicas_annotation, original_suspend_annotation,
}
use lightsout.Json.{get_member, set_member, dig}
use lightsout.Kube.Objects.{ObjectMeta, Replicated, CronJob, Hpa, HpaList}
use lightsout.Kube.Patch.{build}
use lightsout.Kube.Client.{apply_merge_patch}
use lightsout.Kube.Memory.{memory_client, memory_client-IsMergePatch, running, unreachable}
use lightsout.Scaler.Outcome.{skip, scaled, skip_reason_different_schedule}
use lightsout.Scaler.Hpa.{
  scale_up_policy_spec, find_hpa, write_hpa, patch_hpa_for_downscale, restore_hpa,
}
use lightsout.Scaler.Hpa.RoundTrip.{IsDisabled, IsEnabled, hpa_round_trip}
use lightsout.Scaler.Replicas.{scale_replicas, write_down, write_up, parse_replicas}
use lightsout.Scaler.Replicas.Laws.{IsScaledToZero, IsReleased, scale_down-IsScaledToZero}
use lightsout.Scaler.Replicas.RoundTrip.{foreign_left_alone, scale_round_trip}
use lightsout.Scaler.CronJobs.{scale_cron_job}
use lightsout.Scaler.CronJobs.Laws.{IsRunning, cron_job_round_trip}

-- One name for all that a run of a scaler computes through.
run_scaler : Unit {0}
unfolding scale_replicas write_down write_up parse_replicas patch_hpa_for_downscale restore_hpa
    find_hpa apply_merge_patch build memory_client running unreachable dig get_member set_member get
    lookup insert erase itoa parse_int String-discrete scale_cron_job
run_scaler = tt

abbrev plain : Dict String → ObjectMeta
plain annotations = record {
  name = "web";
  namespace = "team";
  labels = ("app", "web") ∷ [];
  annotations = annotations;
  owner_references = [];
  generation = pos 4;
}

abbrev web : Option ℤ → Dict String → Replicated
web replicas annotations = record {
  meta = plain annotations;
  replicas = replicas;
  observed_generation = pos 4;
  status_replicas = pos 3;
  ready_replicas = pos 3;
}

abbrev fresh : Replicated
fresh = web (some (pos 3)) []

abbrev down : Replicated
down = (scale_replicas memory_client fresh "Deployment" "night" false none running).object

down_runs :
    (down.replicas ≡ some (pos 0))
    × (get original_replicas_annotation down.meta.annotations ≡ "3")
    × (get "app" down.meta.labels ≡ "web")
    × ((scale_replicas memory_client down "Deployment" "night" true none running).object.replicas
        ≡ some (pos 3))
unfolding run_scaler
down_runs = (refl, refl, refl, refl)

scale_down-IsScaledToZero_example : IsScaledToZero "night" (pos 3) down
unfolding run_scaler
scale_down-IsScaledToZero_example =
    scale_down-IsScaledToZero memory_client memory_client-IsMergePatch fresh "Deployment" "night"
      none running (scaled "3" "0") refl refl

scale_round_trip_example :
    IsReleased
      (pos 3)
      (scale_replicas memory_client down "Deployment" "night" true none running).object
unfolding run_scaler
scale_round_trip_example =
    scale_round_trip memory_client memory_client-IsMergePatch fresh down "Deployment" "night" none
      none running running (scaled "3" "0") (scaled "0" "3") (omega arith) refl refl refl refl refl

abbrev theirs : Replicated
theirs = web (some (pos 3)) ((managed_by_annotation, "weekend") ∷ [])

foreign_left_alone_example :
    ((scale_replicas memory_client theirs "Deployment" "night" false none running).object ≡ theirs)
    × ((scale_replicas memory_client theirs "Deployment" "night" false none running).result
        ≡ ok (skip skip_reason_different_schedule))
    × ((x : Replicated)
        → memory_client.replicated.current
            (scale_replicas memory_client theirs "Deployment" "night" false none running).state
            x
          ≡ memory_client.replicated.current running x)
    × ((scale_replicas memory_client theirs "Deployment" "night" false none running).state
        ≡ running)
unfolding run_scaler
foreign_left_alone_example =
    foreign_left_alone memory_client (λ h p s o. refl) theirs "Deployment" "night" false none
      running (ne_of_== _ _ refl) (ne_of_== _ _ refl)

abbrev parked : Replicated
parked = web (some (pos 0)) []

abbrev job : Dict String → CronJob
job annotations = record { meta = plain annotations; suspend = none }

abbrev held : CronJob
held = (scale_cron_job memory_client (job []) "night" false running).object

cron_job_round_trip_example :
    IsRunning (scale_cron_job memory_client held "night" true running).object
    × ((scaled "true" "false").skipped ≡ false)
unfolding run_scaler
cron_job_round_trip_example =
    cron_job_round_trip memory_client memory_client-IsMergePatch (job []) held "night" running
      running (scaled "false" "true") (scaled "true" "false") refl refl refl refl refl

abbrev marked : CronJob
marked = job ((original_suspend_annotation, "user") ∷ [])

-- The HPA of a deployment, with no policy of its own.
abbrev hpa : Hpa
hpa = record {
  meta = plain [];
  target_kind = "Deployment";
  target_name = "web";
  select_policy = "";
}

abbrev closed : HpaList
closed =
    (patch_hpa_for_downscale memory_client (some (hpa ∷ [])) "Deployment" "web" "night" running).1

abbrev first_of : HpaList → Hpa
first_of (some (h ∷ hs)) = h
first_of (some []) = hpa
first_of none = hpa

hpa_round_trip_example :
    ((down : Hpa) × IsDisabled "night" "" down
      × (closed ≡ write_hpa (some (hpa ∷ [])) "Deployment" "web" down))
    × ((up : Hpa) × IsEnabled "" up
        × ((restore_hpa memory_client closed "Deployment" "web" "night" running).1
            ≡ write_hpa closed "Deployment" "web" up))
unfolding run_scaler write_hpa scale_up_policy_spec
hpa_round_trip_example =
    hpa_round_trip memory_client memory_client-IsMergePatch "Deployment" "web" "night"
      (some (hpa ∷ [])) closed hpa (first_of closed) running running refl refl refl refl refl refl
      refl refl refl
