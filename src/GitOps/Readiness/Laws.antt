-- ===== src/GitOps/Readiness/Laws.antt =====
-- What the readiness check answers, independently of its early returns.
use lightsout.Base.{
  String, ◌≡◌, Bool, true, false, not, ◌&&◌, ◌||◌, List, [], ◌∷◌, arith, all, any, ok,
  if◌then◌else◌,
}
use lightsout.Kube.Objects.{Replicated, Pod}
use lightsout.Kube.Cluster.{Cluster}
use lightsout.GitOps.Readiness.{
  scan, wants_replicas, has_replicas, pod_counts_for_readiness, is_pod_ready, check_pods,
  check_stateful_sets, check_workload_readiness,
}

-- Everything of a list that counts is ready.
abbrev pub settled : {A : Type 0} → (A → Bool) → (A → Bool) → List A → Bool
settled counts ready = all (λ x. not (counts x) || ready x)

-- The answer for a list whose elements before it were ready.
abbrev judged : {A : Type 0} → (A → Bool) → (A → Bool) → List A → Bool → Bool × Bool
judged counts ready xs observed =
    if settled counts ready xs then (true, observed || any counts xs) else (false, true)

scan_lem :
    {A : Type 0} (counts ready : A → Bool) (xs : List A) (observed : Bool)
    → scan counts ready xs observed ≡ judged counts ready xs observed
unfolding scan
scan_lem counts ready [] observed = ground arith
scan_lem counts ready (x ∷ xs) observed =
    ground (arith, scan_lem counts ready xs true, scan_lem counts ready xs observed)

module _ (c : Cluster) (ns : String) (s : c.client.State) (ds sets : List Replicated)
    (ps : List Pod) where
  -- Where the three lists succeed, a namespace is ready exactly if every Deployment and StatefulSet
  -- that wants replicas has them ready, and every pod that counts is ready. It is observed if it is
  -- not ready, or if one of them wants replicas or counts.
  pub readiness_judged :
      c.list_deployments ns s ≡ ok ds
      → c.list_stateful_sets ns s ≡ ok sets
      → c.list_pods ns s ≡ ok ps
      → check_workload_readiness c ns s
        ≡ ok (
            if settled wants_replicas has_replicas ds
              && settled wants_replicas has_replicas sets
              && settled pod_counts_for_readiness is_pod_ready ps
            then (
              true,
              any wants_replicas ds || any wants_replicas sets || any pod_counts_for_readiness ps,
            )
            else (false, true))
  unfolding check_workload_readiness check_stateful_sets check_pods
  readiness_judged d e p = ground (
    arith,
    scan_lem wants_replicas has_replicas ds false,
    scan_lem wants_replicas has_replicas sets (any wants_replicas ds),
    scan_lem pod_counts_for_readiness is_pod_ready ps
        (any wants_replicas ds || any wants_replicas sets),
  )
