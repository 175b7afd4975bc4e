-- ===== src/Reconciler/Orphans/Laws.antt =====
-- Which namespaces are released, and why a namespace with a schedule of its own is neither released
-- nor scaled by a schedule that targets it.
use lightsout.Base.{
  ℕ, suc, String, ◌≡◌, refl, ◌∙◌, sym, Bool, true, false, not, ◌&&◌, ◌||◌, none, List, [], ◌∷◌,
  arith, any, contains, ok, ◌==◌, Result-cases, ok-injective, inl, inr,
}
use lightsout.Base.Dict.{Dict, lookup-insert}
use lightsout.Base.Names.{sort_names, contains-sort_names}
use lightsout.Kube.Objects.{ObjectMeta, Replicated, CronJob}
use lightsout.Kube.Cluster.{Cluster}
use lightsout.Namespaces.{keys, filter_namespaces_with_local_schedules}
use lightsout.Namespaces.Laws.{has, contains-keys, has_nil, kept_namespaces}
use lightsout.Reconciler.Server.{Lists}
use lightsout.Reconciler.Orphans.{add_orphan, add_orphans, discover_orphaned_namespaces}

-- Whether an object of a list lies in a namespace.
abbrev pub lies_in : {Obj : Type 0} → (Obj → ObjectMeta) → String → Obj → Bool
lies_in meta_of ns o = (meta_of o).namespace == ns

has-add_orphan :
    (targets : List String) (d : Dict Bool) (n ns : String)
    → has (add_orphan targets d n) ns ≡ (not (contains targets ns) && n == ns || has d ns)
has-add_orphan targets d n ns = ground (arith, lookup-insert n ns true d)

has-add_orphans :
    {Obj : Type 0} (targets : List String) (meta_of : Obj → ObjectMeta) (os : List Obj)
    (d : Dict Bool) (ns : String)
    → has (add_orphans targets meta_of os d) ns
      ≡ (not (contains targets ns) && any (lies_in meta_of ns) os || has d ns)
unfolding add_orphans
has-add_orphans targets meta_of [] d ns = ground arith
has-add_orphans targets meta_of (o ∷ os) d ns = ground (
  arith,
  has-add_orphans targets meta_of os (add_orphan targets d (meta_of o).namespace) ns,
  has-add_orphan targets d (meta_of o).namespace ns,
)

module _ (c : Cluster) (l : Lists c) (schedule_name : String) (targets : List String)
    (s : c.client.State) where
  -- Where the three lists of the cluster succeed, the orphaned namespaces are exactly those that are
  -- no target and hold a workload with the schedule's label.
  pub orphaned_namespaces :
      (ds ts : List Replicated) (js : List CronJob) (ns : String)
      → l.deployments none schedule_name s ≡ ok ds
      → l.stateful_sets none schedule_name s ≡ ok ts
      → l.cron_jobs none schedule_name s ≡ ok js
      → (orphaned : List String) × (discover_orphaned_namespaces c l schedule_name targets s
          ≡ ok orphaned)
        × (contains orphaned ns ≡ (
            not (contains targets ns)
            && (any (lies_in (λ d. d.meta) ns) ds
                || any (lies_in (λ t. t.meta) ns) ts
                || any (lies_in (λ j. j.meta) ns) js)))
  unfolding discover_orphaned_namespaces
  orphaned_namespaces ds ts js ns e1 e2 e3 =
      let d1 = add_orphans targets (λ (d : Replicated). d.meta) ds [] in
      let d2 = add_orphans targets (λ (t : Replicated). t.meta) ts d1 in
      let d3 = add_orphans targets (λ (j : CronJob). j.meta) js d2 in
      (
        sort_names (keys d3),
        rw (e1, discover_orphaned_namespaces)
            (rw (e2, discover_orphaned_namespaces) (rw (e3, discover_orphaned_namespaces) refl)),
        contains-sort_names (keys d3) ns
            ∙ contains-keys d3 ns
            ∙ ground (
              arith,
              has-add_orphans targets (λ (d : Replicated). d.meta) ds [] ns,
              has-add_orphans targets (λ (t : Replicated). t.meta) ts d1 ns,
              has-add_orphans targets (λ (j : CronJob). j.meta) js d2 ns,
              has_nil ns,
            ),
      )

  -- A target is never released.
  targets_kept :
      (orphaned : List String) (ns : String)
      → discover_orphaned_namespaces c l schedule_name targets s ≡ ok orphaned
      → contains targets ns ≡ true
      → contains orphaned ns ≡ false
  unfolding discover_orphaned_namespaces
  targets_kept orphaned ns h m = elim (Result-cases (l.deployments none schedule_name s)) [
    | inr (x, e1) ↦ let h1 = rw (e1, discover_orphaned_namespaces) at h in cc
    | inl (ds, e1) ↦ elim (Result-cases (l.stateful_sets none schedule_name s)) [
      | inr (x, e2) ↦
          let h1 = rw (e1, discover_orphaned_namespaces) at h in
          let h2 = rw (e2, discover_orphaned_namespaces) at h1 in cc
      | inl (ts, e2) ↦ elim (Result-cases (l.cron_jobs none schedule_name s)) [
        | inr (x, e3) ↦
            let h1 = rw (e1, discover_orphaned_namespaces) at h in
            let h2 = rw (e2, discover_orphaned_namespaces) at h1 in
            let h3 = rw (e3, discover_orphaned_namespaces) at h2 in cc
        | inl (js, e3) ↦
            let (orphaned', e, at) = orphaned_namespaces ds ts js ns e1 e2 e3 in
            let same : orphaned' ≡ orphaned = ok-injective (sym e ∙ h) in
            rw (← same) (at ∙ rw m refl)
      ]
    ]
  ]

  -- A target that holds a schedule of its own is neither released nor kept for the pass, whatever
  -- the state `s'` in which the schedules are counted.
  pub local_schedule_wins :
      (orphaned kept : List String) (ns : String) (n : ℕ) (s' : c.client.State)
      → discover_orphaned_namespaces c l schedule_name targets s ≡ ok orphaned
      → filter_namespaces_with_local_schedules l.local_schedules targets s' ≡ ok kept
      → contains targets ns ≡ true
      → l.local_schedules ns s' ≡ ok (suc n)
      → (contains orphaned ns ≡ false) × (contains kept ns ≡ false)
  local_schedule_wins orphaned kept ns n s' h k m own = (
    targets_kept orphaned ns h m,
    kept_namespaces l.local_schedules targets s' kept ns k ∙ rw (m, own) (ground arith),
  )
