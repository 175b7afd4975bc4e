-- ===== src/Kube/Cluster.antt =====
-- What the controller reads of the cluster besides patching: lists, label selectors and the
-- cancellation of its context. None of it is part of the repository.
use lightsout.Base.{String, Bool, Option, none, some, false, List, Result, ok, err}
use lightsout.Base.Dict.{Dict}
use lightsout.Kube.Objects.{Replicated, CronJob, Hpa, HpaList, Pod, App, FluxResource}
use lightsout.Base.{◌≡◌, ◌⊎◌, inl, inr, refl}
use lightsout.Base.Int.{ℤ, pos, ◌≤ℤ◌, ◌<ℤ◌, ◌+ℤ◌}
use lightsout.Constants.{second}
use lightsout.Kube.Client.{Client}

-- `metav1.LabelSelectorRequirement`
pub record Requirement : Type 0 where
  pub key : String
  pub operator : String
  pub values : List String

-- `metav1.LabelSelector`
pub record LabelSelector : Type 0 where
  pub match_labels : Dict String
  pub match_expressions : List Requirement

-- What the list of a kind that a cluster may not have answers; `meta.IsNoMatchError` tells the
-- second from the third.
pub data Listing (Obj : Type 0) : Type 0 where
  listed : List Obj → Listing Obj
  no_match : Listing Obj
  list_failed : String → Listing Obj

-- The two kinds of FluxCD resources.
pub data FluxKind : Type 0 where
  kustomization helm_release : FluxKind

-- The lists take a namespace, and `list_flux` none for the whole cluster. `matches` is `LabelSelectorAsSelector` followed by `Matches`, and fails on an invalid selector.
pub record Cluster : Type 1 where
  pub client : Client
  pub list_deployments : String → client.State → Result (List Replicated)
  pub list_stateful_sets : String → client.State → Result (List Replicated)
  pub list_cron_jobs : String → client.State → Result (List CronJob)
  pub hpa_listing : String → client.State → Listing Hpa
  pub list_pods : String → client.State → Result (List Pod)
  pub list_apps : String → client.State → Listing App
  pub list_flux : FluxKind → Option String → client.State → Listing FluxResource
  pub format_time : ℤ → String
  pub parse_time : String → Option ℤ
  pub matches : LabelSelector → Dict String → Result Bool
  pub cancelled : client.State → Bool

-- `format_time` and `parse_time` write and read RFC 3339, which has whole seconds: a time is read
-- back within the second in which it was written.
pub record IsClock (c : Cluster) : Type 0 where
  pub read : ℤ → ℤ
  pub reads : (t : ℤ) → c.parse_time (c.format_time t) ≡ some (read t)
  pub not_later : (t : ℤ) → read t ≤ℤ t
  pub within : (t : ℤ) → t <ℤ read t +ℤ pos second

-- `ShouldExcludeWorkload` of internal/controller/namespace.go
unfoldable pub should_exclude_workload : Cluster → Dict String → Option LabelSelector → Result Bool
should_exclude_workload c labels none = ok false
should_exclude_workload c labels (some selector) = c.matches selector labels

-- `listHPAs` of internal/controller/hpa.go: nil where the cluster has no autoscaling/v2.
unfoldable pub list_hpas : (c : Cluster) → String → c.client.State → Result HpaList
list_hpas c ns s = elim (c.hpa_listing ns s) [
  | listed l ↦ ok (some l)
  | no_match ↦ ok none
  | list_failed e ↦ err e
]

-- To split on a listing and keep the equation.
pub Listing-cases :
    {Obj : Type 0} (l : Listing Obj)
    → ((objs : List Obj) × (l ≡ listed objs))
      ⊎ (l ≡ no_match)
      ⊎ ((e : String) × (l ≡ list_failed e))
Listing-cases (listed objs) = inl (objs, refl)
Listing-cases no_match = inr (inl refl)
Listing-cases (list_failed e) = inr (inr (e, refl))
