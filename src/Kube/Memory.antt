-- ===== src/Kube/Memory.antt =====
-- A server that holds what the controller read and applies each merge patch to it: it shows that
-- `IsMergePatch` can hold, and runs the tests.
mod Merge
use lightsout.Base.{String, ◌≡◌, refl, ap, Bool, true, false, Result, ok, err}
use lightsout.Base.{if◌then◌else◌}
use lightsout.Json.{Json}
use lightsout.Kube.Objects.{ObjectMeta, Replicated, CronJob, Hpa, App, FluxResource}
use lightsout.Kube.Patch.{spec_change}
use lightsout.Kube.Client.{
  Endpoint, Client, merged_int, merged_bool, merged_policy, policy_change, MergedMeta, IsMergePatch,
}
unfoldable pub use Merge.{put_back, merge_dict, under, members_at, merged_meta}
pub use Merge.{merged_meta-MergedMeta}

-- Every patch is accepted, unless the server's state says that it is down.
unfoldable pub memory_endpoint : {Obj : Type 0} → (Json → Obj → Obj) → Endpoint Bool Obj
memory_endpoint apply = record {
  current = λ up o. o;
  patch = λ o p up. if up then (ok (apply p o), up) else (err "server is down", up);
}

merged_replicated : Json → Replicated → Replicated
merged_replicated p o = record o {
  meta = merged_meta p o.meta;
  replicas = merged_int (spec_change "replicas" p) o.replicas;
}

merged_cron_job : Json → CronJob → CronJob
merged_cron_job p o = record o {
  meta = merged_meta p o.meta;
  suspend = merged_bool (spec_change "suspend" p) o.suspend;
}

merged_hpa : Json → Hpa → Hpa
merged_hpa p o = record o {
  meta = merged_meta p o.meta;
  select_policy = merged_policy (policy_change p) o.select_policy;
}

merged_app : Json → App → App
merged_app p o = record o { meta = merged_meta p o.meta }

merged_flux : Json → FluxResource → FluxResource
merged_flux p o = record o {
  meta = merged_meta p o.meta;
  suspend = merged_bool (spec_change "suspend" p) o.suspend;
}

unfoldable pub memory_client : Client
unfolding merged_meta members_at merge_dict under put_back memory_endpoint merged_replicated
    merged_cron_job merged_hpa merged_app merged_flux
memory_client = record {
  State = Bool;
  replicated = memory_endpoint merged_replicated;
  cron_jobs = memory_endpoint merged_cron_job;
  hpas = memory_endpoint merged_hpa;
  apps = memory_endpoint merged_app;
  flux = memory_endpoint merged_flux;
}

ok-injective :
    {A : Type 0} {S : Type 0} {a b : A} {s t : S}
    → ◌≡◌ {A = Result A × S} (ok a, s) (ok b, t)
    → a ≡ b
ok-injective h = cc

-- An accepted patch answers with the merged object.
answer :
    {Obj : Type 0} (apply : Json → Obj → Obj) (o o' : Obj) (p : Json) (s s' : Bool)
    → (memory_endpoint apply).patch o p s ≡ (ok o', s')
    → apply p o ≡ o'
unfolding memory_endpoint
answer apply o o' p true s' h = ok-injective h
answer apply o o' p false s' h = cc

pub memory_client-IsMergePatch : IsMergePatch memory_client
unfolding memory_client merged_replicated merged_cron_job merged_hpa merged_app merged_flux
memory_client-IsMergePatch = record {
  replicated = λ o o' p s s' h.
      rw (← answer merged_replicated o o' p s s' h) (merged_meta-MergedMeta p o.meta, refl);
  cron_jobs = λ o o' p s s' h.
      rw (← answer merged_cron_job o o' p s s' h) (merged_meta-MergedMeta p o.meta, refl);
  hpas = λ o o' p s s' h.
      rw (← answer merged_hpa o o' p s s' h) (merged_meta-MergedMeta p o.meta, refl);
  apps = λ o o' p s s' h. rw (← answer merged_app o o' p s s' h) (merged_meta-MergedMeta p o.meta);
  flux = λ o o' p s s' h.
      rw (← answer merged_flux o o' p s s' h) (merged_meta-MergedMeta p o.meta, refl, refl);
}

unfoldable pub running : memory_client.State
unfolding memory_client
running = true

unfoldable pub unreachable : memory_client.State
unfolding memory_client
unreachable = false
