-- ===== src/Kube/Client.antt =====
-- The API client of sigs.k8s.io/controller-runtime as the scaler uses it, and `applyMergePatch` of
-- internal/controller/patch.go. The client is not part of the repository: it is a record of
-- functions, and `IsMergePatch` is what RFC 7386 and the API server document of a merge patch.
use lightsout.Base.{String, ◌≡◌, ◌∙◌, ap, Bool, Option, none, some, [], ◌∷◌, Result, ok}
use lightsout.Base.Dict.{lookup}
use lightsout.Base.Int.{ℤ}
use lightsout.Json.{Json, null, bool, int, str, dig}
use lightsout.Kube.Objects.{ObjectMeta, Replicated, CronJob, Hpa, App, FluxResource}
use lightsout.Kube.Patch.{ObjectPatch, build, label_change, annotation_change, spec_change, asked}
use lightsout.Kube.Patch.Build.{label_change-build, annotation_change-build}

-- `current s o` is the copy that the server holds of the object that `o` was read from. `patch`
-- returns the object as the server answers with it, or an error.
pub record Endpoint (S : Type 0) (Obj : Type 0) : Type 0 where
  pub current : S → Obj → Obj
  pub patch : Obj → Json → S → Result Obj × S

pub record Client : Type 1 where
  pub State : Type 0
  pub replicated : Endpoint State Replicated
  pub cron_jobs : Endpoint State CronJob
  pub hpas : Endpoint State Hpa
  pub apps : Endpoint State App
  pub flux : Endpoint State FluxResource

-- `applyMergePatch`
unfoldable pub apply_merge_patch :
    {S Obj : Type 0} → Endpoint S Obj → Obj → ObjectPatch → S → Result Obj × S
apply_merge_patch e o p s = e.patch o (build p) s

-- A key of a string map after a merge patch: null removes it, and a key that the patch does not
-- name keeps the server's value.
abbrev pub merged : Option Json → Option String → Option String
merged none old = old
merged (some null) old = none
merged (some (str v)) old = some v
merged (some _) old = old

abbrev pub merged_int : Option Json → Option ℤ → Option ℤ
merged_int none old = old
merged_int (some null) old = none
merged_int (some (int n)) old = some n
merged_int (some _) old = old

abbrev pub merged_bool : Option Json → Option Bool → Option Bool
merged_bool none old = old
merged_bool (some null) old = none
merged_bool (some (bool b)) old = some b
merged_bool (some _) old = old

abbrev pub merged_policy : Option Json → String → String
merged_policy none old = old
merged_policy (some null) old = ""
merged_policy (some (str v)) old = v
merged_policy (some _) old = old

abbrev pub policy_change : Json → Option Json
policy_change = dig ("spec" ∷ "behavior" ∷ "scaleUp" ∷ "selectPolicy" ∷ [])

pub record MergedMeta (p : Json) (before after : ObjectMeta) : Type 0 where
  pub labels :
      (k : String) → lookup k after.labels ≡ merged (label_change k p) (lookup k before.labels)
  pub annotations :
      (k : String)
      → lookup k after.annotations ≡ merged (annotation_change k p) (lookup k before.annotations)
  pub name : after.name ≡ before.name
  pub namespace : after.namespace ≡ before.namespace

-- What the code relies on of a patch that the server accepts.
pub record IsMergePatch (c : Client) : Type 0 where
  pub replicated :
      (o o' : Replicated) (p : Json) (s s' : c.State)
      → c.replicated.patch o p s ≡ (ok o', s')
      → MergedMeta p (c.replicated.current s o).meta o'.meta
        × (o'.replicas ≡ merged_int (spec_change "replicas" p) (c.replicated.current s o).replicas)
  pub cron_jobs :
      (o o' : CronJob) (p : Json) (s s' : c.State)
      → c.cron_jobs.patch o p s ≡ (ok o', s')
      → MergedMeta p (c.cron_jobs.current s o).meta o'.meta
        × (o'.suspend ≡ merged_bool (spec_change "suspend" p) (c.cron_jobs.current s o).suspend)
  pub hpas :
      (o o' : Hpa) (p : Json) (s s' : c.State)
      → c.hpas.patch o p s ≡ (ok o', s')
      → MergedMeta p (c.hpas.current s o).meta o'.meta
        × (o'.select_policy ≡ merged_policy (policy_change p) (c.hpas.current s o).select_policy)
  pub apps :
      (o o' : App) (p : Json) (s s' : c.State)
      → c.apps.patch o p s ≡ (ok o', s')
      → MergedMeta p (c.apps.current s o).meta o'.meta
  pub flux :
      (o o' : FluxResource) (p : Json) (s s' : c.State)
      → c.flux.patch o p s ≡ (ok o', s')
      → MergedMeta p (c.flux.current s o).meta o'.meta
        × (o'.suspend ≡ merged_bool (spec_change "suspend" p) (c.flux.current s o).suspend)
        × (o'.target_namespace ≡ (c.flux.current s o).target_namespace)

module _ {before after : ObjectMeta} (p : ObjectPatch) (m : MergedMeta (build p) before after) where
  -- A label after an accepted patch, from what the patch was built from.
  pub label_after :
      (k : String)
      → lookup k after.labels
        ≡ merged (asked p.set_labels p.remove_labels k) (lookup k before.labels)
  label_after k = m.labels k ∙ ap (λ c. merged c (lookup k before.labels)) (label_change-build p k)

  -- An annotation after an accepted patch.
  pub annotation_after :
      (k : String)
      → lookup k after.annotations
        ≡ merged (asked p.set_annotations p.remove_annotations k) (lookup k before.annotations)
  annotation_after k =
      m.annotations k
      ∙ ap (λ c. merged c (lookup k before.annotations)) (annotation_change-build p k)
