-- ===== src/GitOps/FluxCd/Discover.antt =====
-- `DiscoverFluxResources` of internal/controller/fluxcd.go.
pub mod Kept
pub mod Laws
use lightsout.Base.{
  String, ◌<>◌, Bool, not, ◌&&◌, Option, none, some, List, [], ◌∷◌, ◌++◌, contains,
}
use lightsout.Base.{◌==◌, if◌then◌else◌, Result, ok, err}
use lightsout.Base.Int.{ℤ}
use lightsout.Constants.{default_flux_cd_namespace}
use lightsout.Api.{FluxCdConfig}
use lightsout.Kube.Objects.{FluxResource}
use lightsout.Kube.Cluster.{
  Cluster, FluxKind, kustomization, helm_release, listed, no_match, list_failed,
}

-- `item.GetNamespace() + "/" + item.GetName()`
unfoldable pub resource_key : FluxResource → String
resource_key o = o.meta.namespace <> ("/" <> o.meta.name)

-- The variables `seen` and `matched`.
pub record Found : Type 0 where
  pub seen : List String
  pub matched : List FluxResource

-- The two early returns, beside the way on.
pub data Search : Type 0 where
  going : Found → Search
  crd_missing : Search
  failed : String → Search

unfoldable pub add_new : FluxResource → Found → Found
add_new o f =
    let key = resource_key o in
    if contains f.seen key
    then f
    else record { seen = key ∷ f.seen; matched = f.matched ++ (o ∷ []) }

-- A loop over the items of a list that passes some of them over.
unfoldable pub add_items : (FluxResource → Bool) → List FluxResource → Found → Found
unfolding add_new
add_items wanted [] f = f
add_items wanted (o ∷ more) f = add_items wanted more (if wanted o then add_new o f else f)

abbrev pub deploys_to_target : List String → FluxResource → Bool
deploys_to_target targets o = not (o.target_namespace == "") && contains targets o.target_namespace

abbrev pub deploys_at_home : FluxResource → Bool
deploys_at_home o = o.target_namespace == ""

module _ (c : Cluster) (s : c.client.State) where
  -- Location 2: the namespaces, but for that of FluxCD itself.
  unfoldable pub search_namespaces : FluxKind → String → List String → Found → Search
  unfolding add_items
  search_namespaces kind flux_ns [] f = going f
  search_namespaces kind flux_ns (ns ∷ more) f = elim (ns == flux_ns) [
    | Bool.true ↦ search_namespaces kind flux_ns more f
    | Bool.false ↦ elim (c.list_flux kind (some ns) s) [
      | listed items ↦ search_namespaces kind flux_ns more (add_items deploys_at_home items f)
      | no_match ↦ crd_missing
      | list_failed e ↦ failed e
    ]
  ]

  -- Location 1, the whole cluster, and then location 2.
  unfoldable pub search_kind : FluxKind → String → List String → Found → Search
  unfolding search_namespaces
  search_kind kind flux_ns targets f = elim (c.list_flux kind none s) [
    | listed items ↦
        search_namespaces kind flux_ns targets (add_items (deploys_to_target targets) items f)
    | no_match ↦ crd_missing
    | list_failed e ↦ failed e
  ]

-- `DiscoverFluxResources`
unfoldable pub discover_flux_resources :
    (c : Cluster) → FluxCdConfig → List String → c.client.State → Result (List FluxResource)
unfolding search_kind
discover_flux_resources c cfg targets s =
    let flux_ns = if cfg.namespace == "" then default_flux_cd_namespace else cfg.namespace in
    let start : Found = record { seen = []; matched = [] } in
    elim (search_kind c s kustomization flux_ns targets start) [
      | crd_missing ↦ ok []
      | failed e ↦ err e
      | going f ↦ elim (search_kind c s helm_release flux_ns targets f) [
        | crd_missing ↦ ok []
        | failed e ↦ err e
        | going g ↦ ok g.matched
      ]
    ]
