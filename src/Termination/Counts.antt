-- ===== src/Termination/Counts.antt =====
-- The report counts every pod of the managed namespaces that is on its way out.
use lightsout.Base.{
  ℕ, ◌+◌, ◌≤◌, ◌≡◌, refl, String, ◌<>◌, Bool, true, false, none, List, [], ◌∷◌, ◌++◌, inl, inr,
  arith, length, length-append, Result, ok, err, Result-cases, if◌then◌else◌,
}
use lightsout.Base.Names.{length-sort_names}
use lightsout.Base.Dict.{insert}
use lightsout.Base.Int.{ℤ}
use lightsout.Kube.Objects.{Pod}
use lightsout.Termination.{
  TerminationReport, no_report, is_terminating, is_stuck, count_pod, count_pods, count_from,
  count_terminating_pods,
}

-- How many pods of a list pass a test.
unfoldable pub how_many : (Pod → Bool) → List Pod → ℕ
how_many p [] = 0
how_many p (x ∷ xs) = let rest = how_many p xs in if p x then rest + 1 else rest

how_many-append :
    (p : Pod → Bool) (xs ys : List Pod) → how_many p (xs ++ ys) ≡ how_many p xs + how_many p ys
unfolding how_many
how_many-append p [] ys = ground arith
how_many-append p (x ∷ xs) ys = ground (arith, how_many-append p xs ys)

-- A report `r'` that counts so many more pods than `r`.
record Counted (now : ℤ) (pods : List Pod) (r r' : TerminationReport) : Type 0 where
  terminating : r'.terminating ≡ r.terminating + how_many is_terminating pods
  stuck : r'.stuck ≡ r.stuck + how_many (λ p. is_stuck p now) pods
  names : length r'.stuck_names + r.stuck ≡ length r.stuck_names + r'.stuck

pub stuck_terminates : (pod : Pod) (now : ℤ) → is_stuck pod now ≡ true → is_terminating pod ≡ true
unfolding is_stuck is_terminating
stuck_terminates pod now h = ground arith

fewer_stuck :
    (now : ℤ) (pods : List Pod) → how_many (λ p. is_stuck p now) pods ≤ how_many is_terminating pods
unfolding how_many
fewer_stuck now [] = omega arith
fewer_stuck now (pod ∷ pods) = ground (arith, fewer_stuck now pods, stuck_terminates pod now)

one_if : Bool → ℕ
one_if true = 1
one_if false = 0

module _ (ns : String) (now : ℤ) (r : TerminationReport) (pod : Pod) where
  count_pod_terminating :
      (count_pod ns now r pod).terminating ≡ r.terminating + one_if (is_terminating pod)
  unfolding count_pod one_if
  count_pod_terminating = ground (arith, stuck_terminates pod now)

  count_pod_stuck : (count_pod ns now r pod).stuck ≡ r.stuck + one_if (is_stuck pod now)
  unfolding count_pod one_if
  count_pod_stuck = ground (arith, stuck_terminates pod now)

  count_pod_names :
      length (count_pod ns now r pod).stuck_names + r.stuck
      ≡ length r.stuck_names + (count_pod ns now r pod).stuck
  unfolding count_pod
  count_pod_names =
      ground (
        arith,
        stuck_terminates pod now,
        length-append r.stuck_names ((ns <> "/" <> pod.name) ∷ []),
      )

count_pods-Counted :
    (ns : String) (now : ℤ) (r : TerminationReport) (pods : List Pod)
    → Counted now pods r (count_pods ns now r pods)
unfolding count_pods how_many one_if
count_pods-Counted ns now r [] = record {
  terminating = omega arith;
  stuck = omega arith;
  names = refl;
}
count_pods-Counted ns now r (pod ∷ pods) =
    let more = count_pods-Counted ns now (count_pod ns now r pod) pods in
    record {
      terminating = ground (arith, count_pod_terminating ns now r pod, more.terminating);
      stuck = ground (arith, count_pod_stuck ns now r pod, more.stuck);
      names = ground (arith, count_pod_names ns now r pod, more.names);
    }

module _ {S : Type 0} (list_pods : String → S → Result (List Pod)) (now : ℤ) (s : S) where
  -- All the pods of the namespaces.
  pub listed : List String → List Pod
  listed [] = []
  listed (ns ∷ more) = (elim (list_pods ns s) [ ok pods ↦ pods | err e ↦ [] ]) ++ listed more

  count_from-Counted :
      (namespaces : List String) (r : TerminationReport)
      → (count_from list_pods now s namespaces r).1 ≡ none
      → Counted now (listed namespaces) r (count_from list_pods now s namespaces r).0
  unfolding count_from listed how_many
  count_from-Counted [] r h = record {
    terminating = omega arith;
    stuck = omega arith;
    names = ground (arith, length-sort_names r.stuck_names);
  }
  count_from-Counted (ns ∷ more) r h = elim (Result-cases (list_pods ns s)) [
    | inl (pods, found) ↦
        let r' : TerminationReport = record r {
          stuck_by_namespace = insert ns 0 r.stuck_by_namespace;
        } in
        let first = count_pods-Counted ns now r' pods in
        let rest =
          count_from-Counted more (count_pods ns now r' pods) (rw (found, count_from) at h) in
        rw (found, count_from)
          (record {
            terminating = ground (
              arith,
              first.terminating,
              rest.terminating,
              how_many-append is_terminating pods (listed more),
            );
            stuck = ground (
              arith,
              first.stuck,
              rest.stuck,
              how_many-append (λ p. is_stuck p now) pods (listed more),
            );
            names = ground (arith, first.names, rest.names);
          })
    | inr (e, failed) ↦ (let k = rw (failed, count_from) at h in cc)
  ]

  -- Where every list succeeds, the report counts exactly the pods of the namespaces that are on
  -- their way out, and among them those past their grace period, and names each of the latter.
  termination_counts :
      (namespaces : List String)
      → (count_terminating_pods list_pods now s namespaces).1 ≡ none
      → let r = (count_terminating_pods list_pods now s namespaces).0 in
        (r.terminating ≡ how_many is_terminating (listed namespaces))
        × (r.stuck ≡ how_many (λ p. is_stuck p now) (listed namespaces))
        × (length r.stuck_names ≡ r.stuck)
        × (r.stuck ≤ r.terminating)
  termination_counts namespaces h =
      let c = count_from-Counted namespaces no_report h in
      (
        omega (arith, c.terminating),
        omega (arith, c.stuck),
        omega (arith, c.names),
        omega (arith, c.terminating, c.stuck, fewer_stuck now (listed namespaces)),
      )
