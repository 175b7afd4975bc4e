-- ===== src/GitOps/Readiness.antt =====
-- `CheckWorkloadReadiness` of internal/controller/argocd.go.
pub mod Laws
use lightsout.Base.{String, Bool, true, false, not, ◌||◌, Option, none, some, List, [], ◌∷◌}
use lightsout.Base.{◌==◌, if◌then◌else◌, Result, ok, err}
use lightsout.Base.Int.{pos, eqb_ℤ, leb_ℤ}
use lightsout.Kube.Objects.{Replicated, Pod, deref}
use lightsout.Kube.Cluster.{Cluster}

-- A loop over one kind: whether all that count are ready, and whether one was seen. It stops at the
-- first that is not ready.
unfoldable pub scan : {A : Type 0} → (A → Bool) → (A → Bool) → List A → Bool → Bool × Bool
scan counts ready [] observed = (true, observed)
scan counts ready (x ∷ xs) observed =
    let skipped = scan counts ready xs observed in
    let seen = scan counts ready xs true in
    if counts x then (if ready x then seen else (false, true)) else skipped

-- Zero desired replicas say that the workload is down on purpose.
abbrev pub wants_replicas : Replicated → Bool
wants_replicas d = not (eqb_ℤ (deref d.replicas (pos 1)) (pos 0))

abbrev pub has_replicas : Replicated → Bool
has_replicas d = leb_ℤ (deref d.replicas (pos 1)) d.ready_replicas

abbrev counts_by_owner : Option String → Bool
counts_by_owner none = true
counts_by_owner (some kind) =
    if kind == "ReplicaSet" || kind == "StatefulSet" || kind == "Job" then false else true

-- `podCountsForReadiness`
unfoldable pub pod_counts_for_readiness : Pod → Bool
pod_counts_for_readiness p = elim (p.deletion_timestamp) [
  | some d ↦ false
  | none ↦
      if p.phase == "Succeeded" || p.phase == "Failed"
      then false
      else counts_by_owner p.controller_kind
]

unfoldable pub ready_condition : List (String × String) → Bool
ready_condition [] = false
ready_condition ((type, status) ∷ more) =
    let rest = ready_condition more in if type == "Ready" then status == "True" else rest

-- `isPodReady`
abbrev pub is_pod_ready : Pod → Bool
is_pod_ready p = ready_condition p.conditions

module _ (c : Cluster) (ns : String) (s : c.client.State) where
  -- The three loops, in the order of the source; a list that fails ends the check.
  unfoldable pub check_pods : Bool → Result (Bool × Bool)
  check_pods observed = elim (c.list_pods ns s) [
    | err e ↦ err e
    | ok ps ↦ ok (scan pod_counts_for_readiness is_pod_ready ps observed)
  ]

  unfoldable pub check_stateful_sets : Bool → Result (Bool × Bool)
  check_stateful_sets observed = elim (c.list_stateful_sets ns s) [
    | err e ↦ err e
    | ok sets ↦
        let (ready, seen) = scan wants_replicas has_replicas sets observed in
        elim ready [ true ↦ check_pods seen | false ↦ ok (false, true) ]
  ]

  -- `CheckWorkloadReadiness`: whether the namespace is ready, and whether anything was observed.
  unfoldable pub check_workload_readiness : Result (Bool × Bool)
  check_workload_readiness = elim (c.list_deployments ns s) [
    | err e ↦ err e
    | ok ds ↦
        let (ready, seen) = scan wants_replicas has_replicas ds false in
        elim ready [ true ↦ check_stateful_sets seen | false ↦ ok (false, true) ]
  ]
