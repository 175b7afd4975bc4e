-- ===== src/CustomResource/Access.antt =====
-- Custom resources as unstructured objects, what is asked of the API server about them, and
-- `DiscoverCustomResources` of internal/controller/customresource.go.
use lightsout.Base.{String, ◌≡◌, Bool, Option, List, [], ◌∷◌, ◌++◌, keep, Result, ok, err}
use lightsout.Base.{◌==◌, if◌then◌else◌}
use lightsout.Base.Dict.{Dict}
use lightsout.Base.Int.{ℤ}
use lightsout.Json.{Json, Elems}
use lightsout.Api.{CustomResourceConfig}
use lightsout.Kube.Objects.{ObjectMeta}
use lightsout.Kube.Client.{Endpoint, MergedMeta}
use lightsout.Kube.Cluster.{Cluster, Listing, listed, no_match, list_failed}

-- `capturedField`
pub record CapturedField : Type 0 where
  pub present : Bool
  pub value : Json

-- What a delete answers.
pub data Deletion : Type 0 where
  deleted not_found : Deletion
  delete_failed : String → Deletion

-- The accessors of `unstructured`, the calls of the API server that the integration makes of custom
-- resources, and the JSON text of the captured fields. `list_resources` takes the kind, a
-- namespace and the labels to match; `overflowed` is as for `NormalizeValue`.
pub record Resources (c : Cluster) : Type 1 where
  pub endpoint : Endpoint c.client.State Json
  pub list_resources : CustomResourceConfig → String → c.client.State → Listing Json
  pub update : Json → c.client.State → Result Json × c.client.State
  pub delete_resource : Json → c.client.State → Deletion × c.client.State
  pub meta_of : Json → ObjectMeta
  pub set_labels : Dict String → Json → Json
  pub set_annotations : Dict String → Json → Json
  pub nested_int64 : Json → List String → Option ℤ
  pub nested_slice : Json → List String → Option Elems
  pub encode : Dict CapturedField → Result String
  pub decode : String → Result (Dict CapturedField)
  pub overflowed : ℤ

-- A merge patch of a custom resource changes its labels and annotations as any other.
abbrev pub IsMetaPatch : (c : Cluster) → Resources c → Type 0
IsMetaPatch c r =
    (o o' p : Json) (s s' : c.client.State)
    → r.endpoint.patch o p s ≡ (ok o', s')
    → MergedMeta p (r.meta_of (r.endpoint.current s o)) (r.meta_of o')

module _ (c : Cluster) (r : Resources c) where
  abbrev is_named : CustomResourceConfig → Json → Bool
  is_named cfg o = if cfg.name == "" then Bool.true else (r.meta_of o).name == cfg.name

  discover_from :
      CustomResourceConfig → List String → List Json → c.client.State → Result (List Json)
  discover_from cfg [] matched s = ok matched
  discover_from cfg (ns ∷ more) matched s = elim (r.list_resources cfg ns s) [
    | listed items ↦ discover_from cfg more (matched ++ keep (is_named cfg) items) s
    | no_match ↦ ok []
    | list_failed e ↦ err e
  ]

  -- `DiscoverCustomResources`
  unfoldable pub discover_custom_resources :
      CustomResourceConfig → List String → c.client.State → Result (List Json)
  unfolding discover_from
  discover_custom_resources cfg namespaces s = discover_from cfg namespaces [] s
