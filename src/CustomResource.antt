-- ===== src/CustomResource.antt =====
-- internal/controller/customresource.go: custom resources that a schedule turns off and restores.
pub mod Access
pub mod Fields
pub mod Ready
pub mod Warmup
pub mod Laws
pub mod RoundTrip
use lightsout.Base.{
  ℕ, suc, String, Bool, true, false, not, ◌||◌, Option, none, some, List, [], ◌∷◌, ◌++◌,
}
use lightsout.Base.{◌==◌, ◌!=◌, if◌then◌else◌, Result, ok, err}
use lightsout.Base.Dict.{get}
use lightsout.Base.Int.{ℤ}
use lightsout.Constants.{managed_by_label}
use lightsout.Json.{Json}
use lightsout.Api.{CustomResourceConfig}
use lightsout.Kube.Cluster.{Cluster, listed, no_match, list_failed}
use lightsout.GitOps.Marks.{Marked, has_failed}
use lightsout.CustomResource.Access.{
  Resources, deleted, not_found, delete_failed, discover_custom_resources,
}
use lightsout.CustomResource.Fields.{
  turn_custom_resource_down, restore_custom_resource_fields, clear_custom_resource_state,
}

module _ (c : Cluster) (r : Resources c) where
  -- The loop of `DeleteCustomResources`: how many were deleted, and what ended it.
  unfoldable pub delete_each : List Json → ℕ → c.client.State → ℕ × Option String × c.client.State
  delete_each [] deleted_count s = (deleted_count, none, s)
  delete_each (o ∷ more) deleted_count s =
      let (answer, s') = r.delete_resource o s in
      elim answer [
        | delete_failed e ↦ (deleted_count, some e, s')
        | not_found ↦ delete_each more deleted_count s'
        | deleted ↦ delete_each more (suc deleted_count) s'
      ]

  -- `DeleteCustomResources`
  unfoldable pub delete_custom_resources :
      CustomResourceConfig → List String → c.client.State → ℕ × Option String × c.client.State
  delete_custom_resources cfg namespaces s = elim (discover_custom_resources c r cfg namespaces s) [
    | err e ↦ (0, some e, s)
    | ok resources ↦ delete_each resources 0 s
  ]

  unfoldable pub turn_each_down :
      CustomResourceConfig → List Json → String → c.client.State → c.client.State
  turn_each_down cfg [] schedule_name s = s
  turn_each_down cfg (o ∷ more) schedule_name s =
      turn_each_down cfg more schedule_name
        (turn_custom_resource_down c r o cfg schedule_name s).state

  unfoldable pub entry_down :
      CustomResourceConfig → String → List String → c.client.State → c.client.State
  entry_down cfg schedule_name namespaces s =
      if cfg.delete
      then (delete_custom_resources cfg namespaces s).2
      else elim (discover_custom_resources c r cfg namespaces s) [
        | err e ↦ s
        | ok resources ↦ turn_each_down cfg resources schedule_name s
      ]

  -- `customResourcesDown`, on the entries of the schedule
  unfoldable pub custom_resources_down :
      List CustomResourceConfig → String → List String → c.client.State → c.client.State
  custom_resources_down [] schedule_name namespaces s = s
  custom_resources_down (cfg ∷ more) schedule_name namespaces s =
      custom_resources_down more schedule_name namespaces
        (entry_down cfg schedule_name namespaces s)

  -- Whether a restore was made.
  abbrev is_transition : Result Bool → Bool
  is_transition (ok skipped) = not skipped
  is_transition (err e) = false

  unfoldable pub restore_each :
      List Json → String → ℤ → Bool → c.client.State → Bool × c.client.State
  restore_each [] schedule_name now transitioned s = (transitioned, s)
  restore_each (o ∷ more) schedule_name now transitioned s =
      let m = restore_custom_resource_fields c r o schedule_name now s in
      restore_each more schedule_name now (transitioned || is_transition m.skipped) m.state

  -- `customResourcesUp`, on the entries of the schedule
  unfoldable pub custom_resources_up :
      List CustomResourceConfig
      → String
      → List String
      → ℤ
      → Bool
      → c.client.State
      → Bool × c.client.State
  custom_resources_up [] schedule_name namespaces now transitioned s = (transitioned, s)
  custom_resources_up (cfg ∷ more) schedule_name namespaces now transitioned s =
      elim (discover_custom_resources c r cfg namespaces s) [
        | err e ↦ custom_resources_up more schedule_name namespaces now transitioned s
        | ok resources ↦ elim (cfg.delete) [
          | true ↦ custom_resources_up more schedule_name namespaces now transitioned s
          | false ↦
              let (transitioned', s') = restore_each resources schedule_name now transitioned s in
              custom_resources_up more schedule_name namespaces now transitioned' s'
        ]
      ]

  abbrev error_of : Result Bool → List String
  error_of (ok b) = []
  error_of (err e) = e ∷ []

  -- One resource of `restoreAllCustomResources`: its fields first, and then its labels.
  unfoldable pub release_resource :
      Json → String → ℤ → c.client.State → List String × c.client.State
  release_resource o schedule_name now s =
      let m = restore_custom_resource_fields c r o schedule_name now s in
      let cleared = clear_custom_resource_state c r m.object m.state in
      if get managed_by_label (r.meta_of o).labels != schedule_name
      then ([], s)
      else if has_failed m.skipped
      then (error_of m.skipped, m.state)
      else (error_of cleared.skipped, cleared.state)

  unfoldable pub release_each :
      List Json → String → ℤ → c.client.State → List String × c.client.State
  release_each [] schedule_name now s = ([], s)
  release_each (o ∷ more) schedule_name now s =
      let (errors, s') = release_resource o schedule_name now s in
      let (later, s'') = release_each more schedule_name now s' in (errors ++ later, s'')

  -- `restoreAllCustomResources`, on the entries of the schedule
  unfoldable pub restore_all_custom_resources :
      List CustomResourceConfig
      → String
      → List String
      → ℤ
      → c.client.State
      → List String × c.client.State
  restore_all_custom_resources [] schedule_name namespaces now s = ([], s)
  restore_all_custom_resources (cfg ∷ more) schedule_name namespaces now s =
      let passed = restore_all_custom_resources more schedule_name namespaces now s in
      if cfg.delete then passed else elim (discover_custom_resources c r cfg namespaces s) [
        | err e ↦ (e ∷ passed.0, passed.1)
        | ok resources ↦
            let (errors, s') = release_each resources schedule_name now s in
            let (later, s'') = restore_all_custom_resources more schedule_name namespaces now s' in
            (errors ++ later, s'')
      ]
