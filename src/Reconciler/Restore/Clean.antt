-- ===== src/Reconciler/Restore/Clean.antt =====
-- What `restoreManagedWorkloads` has done where it reports no error.
use lightsout.Base.{
  String, ◌≡◌, refl, ◌⊎◌, inl, inr, false, if◌then◌else◌, true, some, List, [], ◌∷◌, ◌++◌, Result,
  ok, err, Bool-cases,
}
use lightsout.Base.Int.{ℤ}
use lightsout.Api.{ScheduleCore}
use lightsout.Kube.Objects.{Replicated, CronJob, HpaList}
use lightsout.Kube.Client.{IsMergePatch}
use lightsout.Kube.Cluster.{Cluster}
use lightsout.Scaler.Outcome.{ScaleResult, Outcome}
use lightsout.Scaler.Replicas.{parse_replicas}
use lightsout.Scaler.Replicas.Laws.{IsReleased}
use lightsout.Scaler.CronJobs.Laws.{IsRunning}
use lightsout.Scaler.Upscaled.{recorded_replicas, is_others, is_held_cron_job, upscaled, resumed}
use lightsout.CustomResource.{restore_all_custom_resources}
use lightsout.CustomResource.Access.{Resources}
use lightsout.Webhook.Fields.{is_empty}
use lightsout.Reconciler.Server.{Lists}
use lightsout.Reconciler.Restore.{
  errors_of, restore_items, restore_listed, deployment_up, stateful_set_up, cron_job_up, hpas_in,
  restore_namespace, restore_namespaces, restore_apps, restore_flux, restore_managed_workloads,
}

append-eq-nil : {A : Type 0} (xs ys : List A) → xs ++ ys ≡ [] → (xs ≡ []) × (ys ≡ [])
append-eq-nil [] ys h = (refl, h)
append-eq-nil (x ∷ xs) ys h = cc

no_errors : {A : Type 0} (a : Result A) → errors_of a ≡ [] → (v : A) × (a ≡ ok v)
no_errors (ok v) h = (v, refl)
no_errors (err e) h = cc

-- A loop over objects, from an HPA list and a state to those that it leaves: each call starts where
-- the one before ended, and what `P` says holds of every call.
pub data Ran {S Obj : Type 0} (scale : Obj → HpaList → S → Outcome S Obj)
    (P : Obj → Outcome S Obj → Type 0) : List Obj → HpaList → S → HpaList → S → Type 0 where
  ended : (hpas : HpaList) (s : S) → Ran scale P [] hpas s hpas s
  called :
      {os : List Obj} {hpas hpas' : HpaList} {s s' : S} (o : Obj)
      → P o (scale o hpas s)
      → Ran scale P os (scale o hpas s).hpas (scale o hpas s).state hpas' s'
      → Ran scale P (o ∷ os) hpas s hpas' s'

module _ {S Obj : Type 0} (scale : Obj → HpaList → S → Outcome S Obj)
    (P : Obj → Outcome S Obj → Type 0)
    (rule : (o : Obj) (hpas : HpaList) (s : S) (r : ScaleResult)
      → (scale o hpas s).result ≡ ok r
      → P o (scale o hpas s)) where
  -- What an answer without an error gives holds of every call of a loop without errors.
  restore_items-Ran :
      (os : List Obj) (hpas : HpaList) (s : S)
      → let x = restore_items scale os hpas s in
        x.errors ≡ [] → Ran scale P os hpas s x.hpas x.state
  unfolding restore_items
  restore_items-Ran [] hpas s h = ended hpas s
  restore_items-Ran (o ∷ os) hpas s h =
      let a = scale o hpas s in
      let (first, rest) = append-eq-nil (errors_of a.result) _ h in
      let (v, e) = no_errors a.result first in
      called o (rule o hpas s v e) (restore_items-Ran os a.hpas a.state rest)

  restore_listed-Ran :
      (found : Result (List Obj)) (hpas : HpaList) (s : S)
      → let x = restore_listed scale found hpas s in
        x.errors ≡ [] → (os : List Obj) × (found ≡ ok os) × Ran scale P os hpas s x.hpas x.state
  unfolding restore_listed
  restore_listed-Ran (ok os) hpas s h = (os, refl, restore_items-Ran os hpas s h)
  restore_listed-Ran (err e) hpas s h = cc

module _ (c : Cluster) (r : Resources c) (l : Lists c) (core : ScheduleCore)
    (schedule_name : String) where
  -- A workload had no record of its replicas, or carried another schedule's name, or the server
  -- answered this upscale of it with the recorded replicas and without any mark.
  abbrev pub IsBack : Replicated → Outcome c.client.State Replicated → Type 0
  IsBack o a =
      (recorded_replicas o ≡ "")
      ⊎ (is_others schedule_name o ≡ true)
      ⊎ IsReleased (parse_replicas (recorded_replicas o)) a.object

  -- A CronJob was not held by the schedule, or it runs in the server's answer, without any mark.
  abbrev pub IsBackCronJob : CronJob → Outcome c.client.State CronJob → Type 0
  IsBackCronJob o a = (is_held_cron_job schedule_name o ≡ false) ⊎ IsRunning a.object

  -- The restore of a namespace, from one state to another: the three lists succeeded, each in the
  -- state that the loop before left, and every workload on them is back.
  pub record IsRestored (ns : String) (from to : c.client.State) : Type 0 where
    pub ds : List Replicated
    pub ts : List Replicated
    pub js : List CronJob
    pub hpas1 : HpaList
    pub hpas2 : HpaList
    pub hpas3 : HpaList
    pub mid1 : c.client.State
    pub mid2 : c.client.State
    pub listed_deployments : l.deployments (some ns) schedule_name from ≡ ok ds
    pub deployments :
        Ran
          (deployment_up c r l core schedule_name)
          IsBack
          ds
          (hpas_in c r l core schedule_name ns from)
          from
          hpas1
          mid1
    pub listed_stateful_sets : l.stateful_sets (some ns) schedule_name mid1 ≡ ok ts
    pub stateful_sets :
        Ran (stateful_set_up c r l core schedule_name) IsBack ts hpas1 mid1 hpas2 mid2
    pub listed_cron_jobs : l.cron_jobs (some ns) schedule_name mid2 ≡ ok js
    pub cron_jobs : Ran (cron_job_up c r l core schedule_name) IsBackCronJob js hpas2 mid2 hpas3 to

  -- The restores of namespaces, one after the other.
  pub data RestoredEach : List String → c.client.State → c.client.State → Type 0 where
    all_restored : (s : c.client.State) → RestoredEach [] s s
    restored_then :
        {ns : String} {more : List String} {s s1 s2 : c.client.State}
        → IsRestored ns s s1
        → RestoredEach more s1 s2
        → RestoredEach (ns ∷ more) s s2

  -- What a restore does after the workloads: the Applications, the Flux resources and the custom
  -- resources.
  abbrev pub integrations_restored : List String → ℤ → c.client.State → c.client.State
  integrations_restored namespaces now s =
      let s' =
        restore_flux c r l core schedule_name namespaces
          (restore_apps c r l core schedule_name namespaces s) in
      if is_empty core.custom_resources
      then s'
      else (restore_all_custom_resources c r core.custom_resources schedule_name namespaces now
          s').1

  module _ (law : IsMergePatch c.client) where
    cron_job-IsBack :
        (o : CronJob) (hpas : HpaList) (s : c.client.State) (a : ScaleResult)
        → (cron_job_up c r l core schedule_name o hpas s).result ≡ ok a
        → IsBackCronJob o (cron_job_up c r l core schedule_name o hpas s)
    cron_job-IsBack o hpas s a e = elim (Bool-cases (is_held_cron_job schedule_name o)) [
      | inl held ↦ inr (resumed c.client law o schedule_name s a held e)
      | inr other ↦ inl other
    ]

    restore_namespace-IsRestored :
        (ns : String) (s : c.client.State)
        → (restore_namespace c r l core schedule_name ns s).0 ≡ []
        → IsRestored ns s (restore_namespace c r l core schedule_name ns s).1
    unfolding restore_namespace
    restore_namespace-IsRestored ns s h =
        let d =
          restore_listed (deployment_up c r l core schedule_name)
            (l.deployments (some ns) schedule_name s) (hpas_in c r l core schedule_name ns s) s in
        let t =
          restore_listed (stateful_set_up c r l core schedule_name)
            (l.stateful_sets (some ns) schedule_name d.state) d.hpas d.state in
        let j =
          restore_listed (cron_job_up c r l core schedule_name)
            (l.cron_jobs (some ns) schedule_name t.state) t.hpas t.state in
        let (first, rest) = append-eq-nil d.errors _ h in
        let (second, third) = append-eq-nil t.errors _ rest in
        let (ds, e1, ran1) =
          restore_listed-Ran (deployment_up c r l core schedule_name) IsBack
            (λ o hpas s' a e. upscaled c.client law o "Deployment" schedule_name hpas s' a e)
            (l.deployments (some ns) schedule_name s) (hpas_in c r l core schedule_name ns s) s
            first in
        let (ts, e2, ran2) =
          restore_listed-Ran (stateful_set_up c r l core schedule_name) IsBack
            (λ o hpas s' a e. upscaled c.client law o "StatefulSet" schedule_name hpas s' a e)
            (l.stateful_sets (some ns) schedule_name d.state) d.hpas d.state second in
        let (js, e3, ran3) =
          restore_listed-Ran (cron_job_up c r l core schedule_name) IsBackCronJob cron_job-IsBack
            (l.cron_jobs (some ns) schedule_name t.state) t.hpas t.state third in
        record {
          ds = ds;
          ts = ts;
          js = js;
          hpas1 = d.hpas;
          hpas2 = t.hpas;
          hpas3 = j.hpas;
          mid1 = d.state;
          mid2 = t.state;
          listed_deployments = e1;
          deployments = ran1;
          listed_stateful_sets = e2;
          stateful_sets = ran2;
          listed_cron_jobs = e3;
          cron_jobs = ran3;
        }

    restore_namespaces-RestoredEach :
        (namespaces : List String) (s : c.client.State)
        → (restore_namespaces c r l core schedule_name namespaces s).0 ≡ []
        → RestoredEach namespaces s (restore_namespaces c r l core schedule_name namespaces s).1
    unfolding restore_namespaces
    restore_namespaces-RestoredEach [] s h = all_restored s
    restore_namespaces-RestoredEach (ns ∷ more) s h =
        let (first, rest) = append-eq-nil (restore_namespace c r l core schedule_name ns s).0 _ h in
        restored_then (restore_namespace-IsRestored ns s first)
          (restore_namespaces-RestoredEach more _ rest)

    -- A restore that reports no error restored every namespace, and then the integrations.
    pub restore-RestoredEach :
        (namespaces : List String) (now : ℤ) (s : c.client.State)
        → (restore_managed_workloads c r l core schedule_name namespaces now s).0 ≡ []
        → (mid : c.client.State) × RestoredEach namespaces s mid
          × ((restore_managed_workloads c r l core schedule_name namespaces now s).1
              ≡ integrations_restored namespaces now mid)
    unfolding restore_managed_workloads
    restore-RestoredEach namespaces now s h =
        let mid = (restore_namespaces c r l core schedule_name namespaces s).1 in
        elim (Bool-cases (is_empty core.custom_resources)) [
          | inl none' ↦
              (mid, restore_namespaces-RestoredEach namespaces s (rw none' at h), rw none' refl)
          | inr some' ↦ (
            mid,
            restore_namespaces-RestoredEach namespaces s
                (append-eq-nil (restore_namespaces c r l core schedule_name namespaces s).0 _
                  (rw some' at h)).0,
            rw some' refl,
          )
        ]
