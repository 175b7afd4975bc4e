-- ===== src/Tests/Discovery.antt =====
-- The namespaces of a schedule on concrete data.
use lightsout.Base.{
  ℕ, String, ◌≡◌, refl, not, ◌&&◌, ◌||◌, some, List, [], ◌∷◌, contains, Result, ok, if◌then◌else◌,
  ◌==◌, String-discrete,
}
use lightsout.Base.Dict.{lookup, insert, erase}
use lightsout.Base.Names.{sort_names}
use lightsout.Kube.Cluster.{LabelSelector}
use lightsout.Namespaces.{
  NamespaceChoice, system_namespaces, add_all, remove_all, keys, selected, discover_namespaces,
  filter_namespaces_with_local_schedules,
}
use lightsout.Namespaces.Laws.{discovered_namespaces}

abbrev dev_teams : LabelSelector
dev_teams = record { match_labels = ("env", "dev") ∷ []; match_expressions = [] }

abbrev choice : NamespaceChoice
choice = record {
  namespace_selector = some dev_teams;
  namespaces = "web" ∷ "api" ∷ [];
  exclude_namespaces = "sandbox" ∷ [];
}

abbrev select : LabelSelector → Unit {0} → Result (List String)
select l s = ok ("sandbox" ∷ "kube-system" ∷ "batch" ∷ [])

abbrev local_schedules : String → Unit {0} → Result ℕ
local_schedules ns s = ok (if ns == "web" then 1 else 0)

run_discovery : Unit {0}
unfolding String-discrete lookup insert erase sort_names add_all remove_all keys selected
    discover_namespaces filter_namespaces_with_local_schedules
run_discovery = tt

discovery_runs :
    (discover_namespaces select choice tt ≡ ok ("api" ∷ "batch" ∷ "web" ∷ []))
    × (filter_namespaces_with_local_schedules local_schedules ("api" ∷ "batch" ∷ "web" ∷ []) tt
        ≡ ok ("api" ∷ "batch" ∷ []))
unfolding run_discovery
discovery_runs = (refl, refl)

discovered_namespaces_example :
    (result : List String) × (discover_namespaces select choice tt ≡ ok result)
    × (contains result "batch" ≡ (
        (contains choice.namespaces "batch"
          || contains ("sandbox" ∷ "kube-system" ∷ "batch" ∷ []) "batch")
        && not (contains choice.exclude_namespaces "batch")
        && not (contains system_namespaces "batch")))
unfolding selected
discovered_namespaces_example =
    discovered_namespaces select choice tt ("sandbox" ∷ "kube-system" ∷ "batch" ∷ []) "batch" refl
