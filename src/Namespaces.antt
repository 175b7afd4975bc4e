-- ===== src/Namespaces.antt =====
-- internal/controller/namespace.go: the namespaces that a schedule manages.
pub mod Laws
use lightsout.Base.{ℕ, String, Bool, true, Option, none, some, List, [], ◌∷◌}
use lightsout.Base.{Result, ok, err, if◌then◌else◌, eqb}
use lightsout.Base.Dict.{Dict, insert, erase}
use lightsout.Kube.Cluster.{LabelSelector}
use lightsout.Base.Names.{sort_names}

-- The fields of `LightsOutScheduleSpec` that are read.
pub record NamespaceChoice : Type 0 where
  pub namespace_selector : Option LabelSelector
  pub namespaces : List String
  pub exclude_namespaces : List String

-- `SystemNamespaces`
abbrev pub system_namespaces : List String
system_namespaces = "kube-system" ∷ "kube-public" ∷ "kube-node-lease" ∷ []

unfoldable pub add_all : List String → Dict Bool → Dict Bool
add_all [] d = d
add_all (ns ∷ more) d = add_all more (insert ns true d)

unfoldable pub remove_all : List String → Dict Bool → Dict Bool
remove_all [] d = d
remove_all (ns ∷ more) d = remove_all more (erase ns d)

unfoldable pub keys : Dict Bool → List String
keys [] = []
keys ((k, _) ∷ d) = k ∷ keys d

module _ {S : Type 0} (select : LabelSelector → S → Result (List String)) where
  -- The names of the namespaces that the selector lists, where there is one. `select` is
  -- `LabelSelectorAsSelector` followed by the list.
  unfoldable pub selected : NamespaceChoice → S → Result (List String)
  selected spec s = elim (spec.namespace_selector) [ none ↦ ok [] | some l ↦ select l s ]

  -- `DiscoverNamespaces`
  unfoldable pub discover_namespaces : NamespaceChoice → S → Result (List String)
  discover_namespaces spec s = elim (selected spec s) [
    | err e ↦ err e
    | ok names ↦
        let wanted = add_all spec.namespaces (add_all names []) in
        ok (
          sort_names
            (keys (remove_all system_namespaces (remove_all spec.exclude_namespaces wanted))))
  ]

module _ {S : Type 0} (local_schedules : String → S → Result ℕ) where
  -- `FilterNamespacesWithLocalSchedules`; `local_schedules` counts the namespace schedules that a
  -- list with limit 1 returns. The text of the error leaves out the namespace.
  unfoldable pub filter_namespaces_with_local_schedules : List String → S → Result (List String)
  filter_namespaces_with_local_schedules [] s = ok []
  filter_namespaces_with_local_schedules (ns ∷ more) s =
      let rest = filter_namespaces_with_local_schedules more s in
      elim (local_schedules ns s) [
        | err e ↦ err e
        | ok n ↦ elim rest [ err e ↦ err e | ok kept ↦ ok (if eqb n 0 then ns ∷ kept else kept) ]
      ]
