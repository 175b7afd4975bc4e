-- ===== src/GitOps/FluxCd/Discover/Kept.antt =====
-- What the loops of `DiscoverFluxResources` keep of its variables.
use mathlib.Core.Path.{subst}
use lightsout.Base.{
  String, ◌≡◌, ◌⊎◌, refl, ap, Bool, true, not, ◌&&◌, ◌||◌, none, some, List, [], ◌∷◌, ◌++◌, arith,
  contains, All, map, all, inl, inr, Bool-cases,
}
use lightsout.Base.{◌==◌, if◌then◌else◌, ok}
use lightsout.Constants.{default_flux_cd_namespace}
use lightsout.Kube.Objects.{FluxResource}
use lightsout.Kube.Cluster.{Cluster, Listing-cases, FluxKind, kustomization, helm_release, listed}
use lightsout.Api.{FluxCdConfig}
use lightsout.GitOps.FluxCd.Discover.{
  resource_key, Found, Search, going, crd_missing, failed, add_new, add_items, deploys_to_target,
  deploys_at_home, search_namespaces, search_kind, discover_flux_resources,
}

-- No text occurs twice.
abbrev pub are_distinct : List String → Bool
are_distinct [] = true
are_distinct (x ∷ xs) = not (contains xs x) && are_distinct xs

abbrev pub keys : List FluxResource → List String
keys = map resource_key

contains-append :
    (xs ys : List String) (k : String) → contains (xs ++ ys) k ≡ (contains xs k || contains ys k)
contains-append [] ys k = refl
contains-append (x ∷ xs) ys k = ground (arith, contains-append xs ys k)

are_distinct-snoc :
    (xs : List String) (k : String)
    → are_distinct (xs ++ (k ∷ [])) ≡ (are_distinct xs && not (contains xs k))
are_distinct-snoc [] k = refl
are_distinct-snoc (x ∷ xs) k = ground (arith, contains-append xs (k ∷ []) x, are_distinct-snoc xs k)

keys-snoc :
    (xs : List FluxResource) (o : FluxResource)
    → keys (xs ++ (o ∷ [])) ≡ keys xs ++ (resource_key o ∷ [])
keys-snoc [] o = refl
keys-snoc (x ∷ xs) o = ap (λ ks. resource_key x ∷ ks) (keys-snoc xs o)

-- `seen` holds the keys of `matched`, which are distinct.
pub record IsKept (f : Found) : Type 0 where
  pub seen : (k : String) → contains f.seen k ≡ contains (keys f.matched) k
  pub distinct : are_distinct (keys f.matched) ≡ true

add_new-IsKept : (o : FluxResource) (f : Found) → IsKept f → IsKept (add_new o f)
unfolding add_new
add_new-IsKept o f h = elim (Bool-cases (contains f.seen (resource_key o))) [
  | inl old ↦ rw old h
  | inr new ↦ rw new (record {
    seen = λ k. ground (
      arith,
      h.seen k,
      keys-snoc f.matched o,
      contains-append (keys f.matched) (resource_key o ∷ []) k,
    );
    distinct =
        rw (keys-snoc f.matched o, are_distinct-snoc (keys f.matched) (resource_key o), h.distinct)
          (ground (arith, h.seen (resource_key o)));
  })
]

pub add_items-IsKept :
    (wanted : FluxResource → Bool) (items : List FluxResource) (f : Found)
    → IsKept f
    → IsKept (add_items wanted items f)
unfolding add_items
add_items-IsKept wanted [] f h = h
add_items-IsKept wanted (o ∷ more) f h = elim (Bool-cases (wanted o)) [
  | inl yes_new ↦ rw yes_new (add_items-IsKept wanted more (add_new o f) (add_new-IsKept o f h))
  | inr passed ↦ rw passed (add_items-IsKept wanted more f h)
]

-- The namespace whose workloads a resource deploys.
abbrev pub deployment_namespace : FluxResource → String
deployment_namespace o = if o.target_namespace == "" then o.meta.namespace else o.target_namespace

abbrev pub deploys_in : List String → FluxResource → Bool
deploys_in targets o = contains targets (deployment_namespace o)

all-snoc :
    (p : FluxResource → Bool) (xs : List FluxResource) (o : FluxResource)
    → all p (xs ++ (o ∷ [])) ≡ (all p xs && p o)
all-snoc p [] o = ground arith
all-snoc p (x ∷ xs) o = ground (arith, all-snoc p xs o)

add_new-scoped :
    (targets : List String) (o : FluxResource) (f : Found)
    → deploys_in targets o ≡ true
    → all (deploys_in targets) f.matched ≡ true
    → all (deploys_in targets) (add_new o f).matched ≡ true
unfolding add_new
add_new-scoped targets o f p h = elim (Bool-cases (contains f.seen (resource_key o))) [
  | inl old ↦ rw old h
  | inr new ↦ rw (new, all-snoc (deploys_in targets) f.matched o, h, p) refl
]

-- A wanted resource deploys into a target namespace.
abbrev pub IsFit : List String → (FluxResource → Bool) → FluxResource → Type 0
IsFit targets wanted o = wanted o ≡ true → deploys_in targets o ≡ true

pub add_items-scoped :
    (targets : List String) (wanted : FluxResource → Bool) (items : List FluxResource) (f : Found)
    → All (IsFit targets wanted) items
    → all (deploys_in targets) f.matched ≡ true
    → all (deploys_in targets) (add_items wanted items f).matched ≡ true
unfolding add_items
add_items-scoped targets wanted [] f p h = h
add_items-scoped targets wanted (o ∷ more) f p h = elim (Bool-cases (wanted o)) [
  | inl new ↦
      rw (new, all)
        (add_items-scoped targets wanted more (add_new o f) p.1
          (add_new-scoped targets o f (p.0 new) h))
  | inr passed ↦ rw (passed, all) (add_items-scoped targets wanted more f p.1 h)
]

-- What holds of the variables, where the search went on.
pub data Holds (P : Found → Type 0) : Search → Type 0 where
  on : {f : Found} → P f → Holds P (going f)
  absent : Holds P crd_missing
  broken : {e : String} → Holds P (failed e)

pub Holds-going : {P : Found → Type 0} {r : Search} {f : Found} → Holds P r → r ≡ going f → P f
Holds-going {P} (on h) e = subst P (cc) h
Holds-going absent e = cc
Holds-going broken e = cc

module _ (c : Cluster) (s : c.client.State) (P : Found → Type 0) (kind : FluxKind)
    (flux_ns : String) where
  search_namespaces-Holds :
      (targets : List String) (f : Found)
      → ((ns : String) (items : List FluxResource) (g : Found)
          → contains targets ns ≡ true
          → c.list_flux kind (some ns) s ≡ listed items
          → P g
          → P (add_items deploys_at_home items g))
      → P f
      → Holds P (search_namespaces c s kind flux_ns targets f)
  unfolding search_namespaces
  search_namespaces-Holds [] f step h = on h
  search_namespaces-Holds (ns ∷ more) f step h =
      let later =
        λ (ns' : String) (items : List FluxResource) (g : Found) (m : contains more ns' ≡ true).
          step ns' items g (ground arith) in
      elim (Bool-cases (ns == flux_ns)) [
        | inl own ↦ rw (own, search_namespaces) (search_namespaces-Holds more f later h)
        | inr other ↦
            rw (other, search_namespaces)
              (elim (Listing-cases (c.list_flux kind (some ns) s)) [
                | inl (items, e) ↦
                    rw (e, search_namespaces)
                      (search_namespaces-Holds more (add_items deploys_at_home items f) later
                        (step ns items f (ground arith) e h))
                | inr (inl e) ↦ rw (e, search_namespaces) absent
                | inr (inr (_, e)) ↦ rw (e, search_namespaces) broken
              ])
      ]

  pub search_kind-Holds :
      (targets : List String) (f : Found)
      → ((items : List FluxResource) (g : Found)
          → P g
          → P (add_items (deploys_to_target targets) items g))
      → ((ns : String) (items : List FluxResource) (g : Found)
          → contains targets ns ≡ true
          → c.list_flux kind (some ns) s ≡ listed items
          → P g
          → P (add_items deploys_at_home items g))
      → P f
      → Holds P (search_kind c s kind flux_ns targets f)
  unfolding search_kind
  search_kind-Holds targets f first step h = elim (Listing-cases (c.list_flux kind none s)) [
    | inl (items, e) ↦
        rw (e, search_kind)
          (search_namespaces-Holds targets (add_items (deploys_to_target targets) items f) step
            (first items f h))
    | inr (inl e) ↦ rw (e, search_kind) absent
    | inr (inr (_, e)) ↦ rw (e, search_kind) broken
  ]

abbrev pub flux_namespace : FluxCdConfig → String
flux_namespace cfg = if cfg.namespace == "" then default_flux_cd_namespace else cfg.namespace

abbrev pub nothing : Found
nothing = record { seen = []; matched = [] }

Search-cases :
    (r : Search)
    → ((f : Found) × (r ≡ going f)) ⊎ (r ≡ crd_missing) ⊎ ((e : String) × (r ≡ failed e))
Search-cases (going f) = inl (f, refl)
Search-cases crd_missing = inr (inl refl)
Search-cases (failed e) = inr (inr (e, refl))

-- A search that returned resources went on with both kinds.
pub discover-ok :
    (c : Cluster) (cfg : FluxCdConfig) (targets : List String) (s : c.client.State)
    (rs : List FluxResource)
    → discover_flux_resources c cfg targets s ≡ ok rs
    → (rs ≡ [])
      ⊎ ((f : Found) × (g : Found) × (search_kind c s kustomization
              (flux_namespace cfg)
              targets
              nothing
            ≡ going f)
          × (search_kind c s helm_release (flux_namespace cfg) targets f ≡ going g)
          × (rs ≡ g.matched))
unfolding discover_flux_resources
discover-ok c cfg targets s rs h =
    let first = search_kind c s kustomization (flux_namespace cfg) targets nothing in
    elim (Search-cases first) [
      | inr (inl e) ↦ inl (let k = rw (e, discover_flux_resources) at h in cc)
      | inr (inr (m, e)) ↦ let k = rw (e, discover_flux_resources) at h in cc
      | inl (f, e) ↦
          let k = rw (e, discover_flux_resources) at h in
          elim (Search-cases (search_kind c s helm_release (flux_namespace cfg) targets f)) [
            | inr (inl e2) ↦ inl (let k2 = rw (e2, discover_flux_resources) at k in cc)
            | inr (inr (m, e2)) ↦ let k2 = rw (e2, discover_flux_resources) at k in cc
            | inl (g, e2) ↦ inr (f, g, e, e2, let k2 = rw (e2, discover_flux_resources) at k in cc)
          ]
    ]
