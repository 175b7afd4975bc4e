-- ===== src/Collect/Laws.antt =====
-- What every collected workload satisfies.
use lightsout.Base.{
  String, ◌≡◌, ◌≢◌, ◌⊎◌, refl, any, Option, none, Bool, true, false, some, List, [], ◌∷◌, ◌++◌,
  arith, All, inl, inr, Bool-cases, Result, ok, err, Result-cases, ==_refl, String-discrete,
}
use lightsout.Base.Dict.{lookup, get}
use lightsout.Constants.{managed_by_label}
use lightsout.Kube.Objects.{ObjectMeta, Replicated, CronJob}
use lightsout.Kube.Client.{Endpoint, apply_merge_patch, IsMergePatch, label_after}
use lightsout.Kube.Cluster.{Cluster, should_exclude_workload}
use lightsout.Workload.{
  WorkloadType, deployment, stateful_set, cron_job, kind, has_controller_owner, Workload,
  of_deployment, of_stateful_set, of_cron_job, meta,
}
use lightsout.Collect.{
  Filters, same_type, transfer_patch, needs_transfer, is_passed_over, collect_items, stage,
  should_process_workload_type, collect_namespace, collect_from, collect_workloads,
}

All-append :
    (P : Workload → Type 0) (xs ys : List Workload) → All P xs → All P ys → All P (xs ++ ys)
All-append P [] ys h k = k
All-append P (x ∷ xs) ys (p, h) k = (p, All-append P xs ys h k)

-- Every workload of a collection that did not fail.
abbrev pub AllOk : {S : Type 0} → (Workload → Type 0) → Result (List Workload) × S → Type 0
AllOk P (ok ws, s) = All P ws
AllOk P (err e, s) = Unit

module _ (c : Cluster) (filters : Filters) (schedule_name : String) (transfer : Bool)
    (P : Workload → Type 0) where
  -- The rule for one kind: `P` holds of what is kept as it is, and of what is claimed.
  abbrev Keeps : {Obj : Type 0} → WorkloadType → (Obj → ObjectMeta) → (Obj → Workload) → Type 0
  Keeps {Obj} t meta_of wrap =
      should_process_workload_type filters.workload_types t ≡ true
      → (o : Obj) → is_passed_over c filters schedule_name transfer (meta_of o) ≡ false
      → needs_transfer transfer (meta_of o) schedule_name ≡ false
      → P (wrap o)

  abbrev Claims :
      {Obj : Type 0} → (Obj → ObjectMeta) → (Obj → Workload) → Endpoint c.client.State Obj → Type 0
  Claims {Obj} meta_of wrap e =
      (o o' : Obj) (s s' : c.client.State)
      → needs_transfer transfer (meta_of o) schedule_name ≡ true
      → apply_merge_patch e o (transfer_patch schedule_name) s ≡ (ok o', s')
      → P (wrap o')

  collect_items-All :
      {Obj : Type 0} (meta_of : Obj → ObjectMeta) (wrap : Obj → Workload)
      (e : Endpoint c.client.State Obj) (t : WorkloadType)
      → should_process_workload_type filters.workload_types t ≡ true
      → Keeps t meta_of wrap
      → Claims meta_of wrap e
      → (os : List Obj) (s : c.client.State)
      → All P (collect_items c filters schedule_name transfer meta_of wrap e os s).0
  unfolding collect_items
  collect_items-All meta_of wrap e t wanted keeps claims [] s = tt
  collect_items-All meta_of wrap e t wanted keeps claims (o ∷ os) s =
      elim (Bool-cases (is_passed_over c filters schedule_name transfer (meta_of o))) [
        | inl over ↦ rw over (collect_items-All meta_of wrap e t wanted keeps claims os s)
        | inr kept ↦ elim (Bool-cases (needs_transfer transfer (meta_of o) schedule_name)) [
          | inr mine ↦
              rw (kept, mine)
                (
                  keeps wanted o kept mine,
                  collect_items-All meta_of wrap e t wanted keeps claims os s,
                )
          | inl other ↦
              let answer = apply_merge_patch e o (transfer_patch schedule_name) s in
              elim (Result-cases answer.0) [
                | inl (o', done) ↦
                    rw (kept, other, done)
                      (
                        claims o o' s answer.1 other (λ i. (done i, answer.1)),
                        collect_items-All meta_of wrap e t wanted keeps claims os answer.1,
                      )
                | inr (x, refused) ↦
                    rw (kept, other, refused)
                      (collect_items-All meta_of wrap e t wanted keeps claims os answer.1)
              ]
        ]
      ]

  stage-AllOk :
      {Obj : Type 0} (t : WorkloadType) (meta_of : Obj → ObjectMeta) (wrap : Obj → Workload)
      (e : Endpoint c.client.State Obj) (list : String → c.client.State → Result (List Obj))
      (ns : String)
      → Keeps t meta_of wrap
      → Claims meta_of wrap e
      → (r : Result (List Workload) × c.client.State) → AllOk P r
      → AllOk P (stage c filters schedule_name transfer t meta_of wrap e list ns r)
  unfolding stage
  stage-AllOk t meta_of wrap e list ns keeps claims (err x, s) h = tt
  stage-AllOk t meta_of wrap e list ns keeps claims (ok ws, s) h =
      elim (Bool-cases (should_process_workload_type filters.workload_types t)) [
        | inr other ↦ rw other h
        | inl wanted ↦ elim (Result-cases (list ns s)) [
          | inl (os, found) ↦
              rw (wanted, found)
                (All-append P ws _ h (collect_items-All meta_of wrap e t wanted keeps claims os s))
          | inr (x, failed) ↦ rw (wanted, failed) tt
        ]
      ]

  module _ (keeps : Keeps deployment (λ (d : Replicated). d.meta) of_deployment)
      (keeps' : Keeps stateful_set (λ (d : Replicated). d.meta) of_stateful_set)
      (keeps'' : Keeps cron_job (λ (j : CronJob). j.meta) of_cron_job)
      (claims : Claims (λ (d : Replicated). d.meta) of_deployment c.client.replicated)
      (claims' : Claims (λ (d : Replicated). d.meta) of_stateful_set c.client.replicated)
      (claims'' : Claims (λ (j : CronJob). j.meta) of_cron_job c.client.cron_jobs) where
    collect_from-AllOk :
        (namespaces : List String) (r : Result (List Workload) × c.client.State)
        → AllOk P r
        → AllOk P (collect_from c filters schedule_name transfer namespaces r)
    unfolding collect_from collect_namespace
    collect_from-AllOk [] r h = h
    collect_from-AllOk (ns ∷ more) r h = collect_from-AllOk more _ (
        stage-AllOk _ _ of_cron_job c.client.cron_jobs c.list_cron_jobs ns keeps'' claims'' _ (
          stage-AllOk _ _ of_stateful_set c.client.replicated c.list_stateful_sets ns keeps' claims'
            _
            (stage-AllOk _ _ of_deployment c.client.replicated c.list_deployments ns keeps claims r
              h)))

-- None of the owner references marks a controller.
abbrev pub HasNoController : List (Option Bool) → Type 0
HasNoController = All (λ r. r ≢ some true)

has_controller_owner_lem :
    (refs : List (Option Bool)) → has_controller_owner refs ≡ false → HasNoController refs
unfolding has_controller_owner
has_controller_owner_lem [] h = tt
has_controller_owner_lem (none ∷ refs) h = (λ e. cc, has_controller_owner_lem refs h)
has_controller_owner_lem (some true ∷ refs) h = cc
has_controller_owner_lem (some false ∷ refs) h = (λ e. cc, has_controller_owner_lem refs h)

-- A type stands in a list.
pub data Occurs (t : WorkloadType) : List WorkloadType → Type 0 where
  first : (us : List WorkloadType) → Occurs t (t ∷ us)
  later : {us : List WorkloadType} (u : WorkloadType) → Occurs t us → Occurs t (u ∷ us)

-- The types that a schedule names: all of them where it names none.
abbrev pub IsNamed : List WorkloadType → WorkloadType → Type 0
IsNamed types t = (types ≡ []) ⊎ Occurs t types

same_type-eq : (t u : WorkloadType) → same_type t u ≡ true → t ≡ u
same_type-eq deployment deployment h = refl
same_type-eq stateful_set stateful_set h = refl
same_type-eq cron_job cron_job h = refl
same_type-eq deployment stateful_set h = cc
same_type-eq deployment cron_job h = cc
same_type-eq stateful_set deployment h = cc
same_type-eq stateful_set cron_job h = cc
same_type-eq cron_job deployment h = cc
same_type-eq cron_job stateful_set h = cc

any-same_type :
    (t : WorkloadType) (types : List WorkloadType) → any (same_type t) types ≡ true → Occurs t types
any-same_type t [] h = cc
any-same_type t (u ∷ us) h = elim (Bool-cases (same_type t u)) [
  | inl same ↦ rw (same_type-eq t u same) (first us)
  | inr other ↦ later u (any-same_type t us (rw other at h))
]

should_process-IsNamed :
    (types : List WorkloadType) (t : WorkloadType)
    → should_process_workload_type types t ≡ true
    → IsNamed types t
unfolding should_process_workload_type
should_process-IsNamed [] t h = inl refl
should_process-IsNamed (u ∷ us) t h = inr (any-same_type t (u ∷ us) h)

module _ (c : Cluster) (filters : Filters) (schedule_name : String) where
  -- What a schedule asks of a workload: its type is named, its labels can be checked and are not
  -- excluded, and no controller owns it unless owned workloads are included.
  pub record IsAsked (w : Workload) : Type 0 where
    pub named : IsNamed filters.workload_types (kind w)
    pub labels : should_exclude_workload c (meta w).labels filters.exclude_labels ≡ ok false
    pub owners :
        (filters.include_owned_workloads ≡ true) ⊎ HasNoController (meta w).owner_references

  kept-IsAsked :
      (w : Workload)
      → should_process_workload_type filters.workload_types (kind w) ≡ true
      → is_passed_over c filters schedule_name false (meta w) ≡ false
      → IsAsked w
  unfolding is_passed_over
  kept-IsAsked w wanted h =
      let answer = should_exclude_workload c (meta w).labels filters.exclude_labels in
      record {
        named = should_process-IsNamed filters.workload_types (kind w) wanted;
        labels = elim (Result-cases answer) [
          | inr (x, e) ↦ let h1 = rw e at h in cc
          | inl (b, e) ↦ let h1 = rw e at h in rw e (ground arith)
        ];
        owners = elim (Bool-cases filters.include_owned_workloads) [
          | inl included ↦ inl included
          | inr excluded ↦ inr (has_controller_owner_lem (meta w).owner_references (ground arith))
        ];
      }

  -- Without ownership transfer every collected workload is one that the schedule asks for: its type
  -- is among the named ones, or none is named; its labels could be checked and are not excluded; and
  -- none of its owner references is a controller's, unless owned workloads are included.
  pub collect_passes_filters :
      (namespaces : List String) (s : c.client.State)
      → AllOk IsAsked (collect_workloads c filters schedule_name false namespaces s)
  unfolding collect_workloads
  collect_passes_filters namespaces s =
      collect_from-AllOk c filters schedule_name false _
        (λ wanted d h _. kept-IsAsked (of_deployment d) wanted h)
        (λ wanted d h _. kept-IsAsked (of_stateful_set d) wanted h)
        (λ wanted j h _. kept-IsAsked (of_cron_job j) wanted h) (λ o o' a b h. cc)
        (λ o o' a b h. cc) (λ o o' a b h. cc) namespaces _ tt

needs_transfer_done :
    (m : ObjectMeta) (schedule_name : String)
    → lookup managed_by_label m.labels ≡ some schedule_name
    → needs_transfer true m schedule_name ≡ false
unfolding get
needs_transfer_done m schedule_name h = rw h (ground (arith, ==_refl schedule_name))

module _ (c : Cluster) (law : IsMergePatch c.client) (filters : Filters)
    (schedule_name : String) where
  -- With ownership transfer no collected workload carries another schedule's label: each had none,
  -- or this schedule's, or was claimed by a patch that the server accepted.
  collect_claims :
      (namespaces : List String) (s : c.client.State)
      → AllOk
          (λ w. needs_transfer true (meta w) schedule_name ≡ false)
          (collect_workloads c filters schedule_name true namespaces s)
  unfolding collect_workloads apply_merge_patch String-discrete lookup
  collect_claims namespaces s =
      collect_from-AllOk c filters schedule_name true _ (λ _ o _ h. h) (λ _ o _ h. h) (λ _ o _ h. h)
        claimed claimed claimed_job namespaces _ tt
    where
      claimed :
          (o o' : Replicated) (s s' : c.client.State)
          → needs_transfer true o.meta schedule_name ≡ true
          → apply_merge_patch c.client.replicated o (transfer_patch schedule_name) s ≡ (ok o', s')
          → needs_transfer true o'.meta schedule_name ≡ false
      claimed o o' s s' h k = needs_transfer_done o'.meta schedule_name (
          label_after (transfer_patch schedule_name) (law.replicated o o' _ s s' k).0
            managed_by_label)

      claimed_job :
          (o o' : CronJob) (s s' : c.client.State)
          → needs_transfer true o.meta schedule_name ≡ true
          → apply_merge_patch c.client.cron_jobs o (transfer_patch schedule_name) s ≡ (ok o', s')
          → needs_transfer true o'.meta schedule_name ≡ false
      claimed_job o o' s s' h k = needs_transfer_done o'.meta schedule_name (
          label_after (transfer_patch schedule_name) (law.cron_jobs o o' _ s s' k).0
            managed_by_label)
