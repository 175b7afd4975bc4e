-- ===== src/Termination/Gauge.antt =====
-- `reportStuckTerminatingPods` and `clearStuckTerminatingPods` of internal/controller/termination.go:
-- the gauge of the stuck pods and the warning event. The gauge is kept as the series of one schedule's
-- label, a number for each namespace.
use lightsout.Base.{
  ℕ, suc, zero, ◌+◌, String, ◌≡◌, refl, ◌∙◌, inl, inr, Bool, true, false, ◌||◌, Option, none, some,
  List, [], ◌∷◌, arith, contains, length, ltb, eqb, Result, ok, err, Result-cases, Bool-cases, ◌==◌,
  ==_refl, if◌then◌else◌,
}
use lightsout.Base.Dict.{Dict, lookup, insert, lookup-insert}
use lightsout.Base.Int.{ℤ}
use lightsout.Kube.Objects.{Pod}
use lightsout.Termination.{
  TerminationReport, no_report, is_terminating, is_stuck, count_pod, count_pods, count_from,
  count_terminating_pods,
}
use lightsout.Termination.Counts.{how_many, stuck_terminates}

-- `maxReportedStuckPods`
abbrev pub max_reported_stuck_pods : ℕ
max_reported_stuck_pods = 5

-- The event of the pods that are stuck: their number, the names that it lists, and whether there are
-- more.
pub record StuckEvent : Type 0 where
  pub count : ℕ
  pub names : List String
  pub abridged : Bool

-- `names[:n]`, for a list that is longer
abbrev take : ℕ → List String → List String
take zero xs = []
take (suc n) [] = []
take (suc n) (x ∷ xs) = x ∷ take n xs

-- The series that the loop writes; a map has each namespace once.
unfoldable pub set_series : Dict ℕ → Dict ℕ → Dict ℕ
set_series [] gauge = gauge
set_series ((ns, count) ∷ more) gauge = insert ns count (set_series more gauge)

-- The event of `reportStuckTerminatingPods`, where there is one
unfoldable pub stuck_event : TerminationReport → Option StuckEvent
stuck_event report =
    let long = ltb max_reported_stuck_pods (length report.stuck_names) in
    if eqb report.stuck 0
    then none
    else some (record {
      count = report.stuck;
      names = if long then take max_reported_stuck_pods report.stuck_names else report.stuck_names;
      abridged = long;
    })

-- `clearStuckTerminatingPods`
unfoldable pub clear_stuck_terminating_pods : List String → Dict ℕ → Dict ℕ
clear_stuck_terminating_pods [] gauge = gauge
clear_stuck_terminating_pods (ns ∷ more) gauge =
    clear_stuck_terminating_pods more (insert ns 0 gauge)

lookup-set_series :
    (d gauge : Dict ℕ) (k : String)
    → lookup k (set_series d gauge)
      ≡ (elim (lookup k d) [ none ↦ lookup k gauge | some n ↦ some n ])
unfolding set_series lookup
lookup-set_series [] gauge k = refl
lookup-set_series ((ns, n) ∷ more) gauge k =
    ground (arith, lookup-insert ns k n (set_series more gauge), lookup-set_series more gauge k)

lookup-clear :
    (namespaces : List String) (gauge : Dict ℕ) (k : String)
    → lookup k (clear_stuck_terminating_pods namespaces gauge)
      ≡ (if contains namespaces k then some 0 else lookup k gauge)
unfolding clear_stuck_terminating_pods
lookup-clear [] gauge k = refl
lookup-clear (ns ∷ more) gauge k =
    ground (arith, lookup-clear more (insert ns 0 gauge) k, lookup-insert ns k 0 gauge)

module _ (now : ℤ) (ns : String) where
  count_pod-own :
      (r : TerminationReport) (pod : Pod) (m : ℕ)
      → lookup ns r.stuck_by_namespace ≡ some m
      → lookup ns (count_pod ns now r pod).stuck_by_namespace
        ≡ some (if is_stuck pod now then m + 1 else m)
  unfolding count_pod
  count_pod-own r pod m h = elim (Bool-cases (is_stuck pod now)) [
    | inl st ↦
        rw (stuck_terminates pod now st)
          (rw st (rw h (lookup-insert ns ns (m + 1) r.stuck_by_namespace ∙ rw (==_refl ns) refl)))
    | inr fine ↦
        rw fine (elim (Bool-cases (is_terminating pod)) [
          | inl going ↦ rw going h
          | inr other ↦ rw other h
        ])
  ]

  count_pods-own :
      (r : TerminationReport) (pods : List Pod) (m : ℕ)
      → lookup ns r.stuck_by_namespace ≡ some m
      → lookup ns (count_pods ns now r pods).stuck_by_namespace
        ≡ some (m + how_many (λ p. is_stuck p now) pods)
  unfolding count_pods how_many
  count_pods-own r [] m h = ground arith
  count_pods-own r (pod ∷ pods) m h =
      let m' : ℕ = if is_stuck pod now then m + 1 else m in
      count_pods-own (count_pod ns now r pod) pods m' (count_pod-own r pod m h) ∙ ground arith

  count_pod-other :
      (r : TerminationReport) (pod : Pod) (k : String)
      → (ns == k) ≡ false
      → lookup k (count_pod ns now r pod).stuck_by_namespace ≡ lookup k r.stuck_by_namespace
  unfolding count_pod
  count_pod-other r pod k h = elim (Bool-cases (is_stuck pod now)) [
    | inl st ↦
        rw (stuck_terminates pod now st)
          (rw st (lookup-insert ns k _ r.stuck_by_namespace ∙ rw h refl))
    | inr fine ↦ rw fine (elim (Bool-cases (is_terminating pod)) [
      | inl going ↦ rw going refl
      | inr other ↦ rw other refl
    ])
  ]

  count_pods-other :
      (r : TerminationReport) (pods : List Pod) (k : String)
      → (ns == k) ≡ false
      → lookup k (count_pods ns now r pods).stuck_by_namespace ≡ lookup k r.stuck_by_namespace
  unfolding count_pods
  count_pods-other r [] k h = refl
  count_pods-other r (pod ∷ pods) k h =
      count_pods-other (count_pod ns now r pod) pods k h ∙ count_pod-other r pod k h

module _ {S : Type 0} (list_pods : String → S → Result (List Pod)) (now : ℤ) (s : S) where
  -- How many pods of a namespace are stuck.
  unfoldable pub stuck_in : String → ℕ
  stuck_in ns = elim (list_pods ns s) [ ok pods ↦ how_many (λ p. is_stuck p now) pods | err e ↦ 0 ]

  -- The namespaces that are counted after one, and then that one.
  counted_then :
      {ns : String} (r : TerminationReport) (pods : List Pod) (more : List String) (k : String)
      → list_pods ns s ≡ ok pods
      → let r' : TerminationReport = record r {
        stuck_by_namespace = insert ns 0 r.stuck_by_namespace;
      } in
        (if contains more k
          then some (stuck_in k)
          else lookup k (count_pods ns now r' pods).stuck_by_namespace)
        ≡ (if ns == k || contains more k then some (stuck_in k) else lookup k r.stuck_by_namespace)
  unfolding stuck_in
  counted_then {ns} r pods more k e =
      let d = insert ns 0 r.stuck_by_namespace in
      let r' : TerminationReport = record r { stuck_by_namespace = d } in
      elim (Bool-cases (ns == k)) [
        | inl same ↦
            let eq : ns ≡ k = ground arith in
            let own =
              count_pods-own now ns r' pods 0
                (lookup-insert ns ns 0 r.stuck_by_namespace ∙ rw (==_refl ns) refl) in
            let own' : lookup k (count_pods ns now r' pods).stuck_by_namespace ≡ some (stuck_in k) =
              rw (← eq) (own ∙ rw (e, stuck_in) (ground arith)) in
            ground (arith, own')
        | inr other ↦ ground (
          arith,
          count_pods-other now ns r' pods k other,
          lookup-insert ns k 0 r.stuck_by_namespace,
        )
      ]

  count_from-at :
      (namespaces : List String) (r : TerminationReport) (k : String)
      → (count_from list_pods now s namespaces r).1 ≡ none
      → lookup k (count_from list_pods now s namespaces r).0.stuck_by_namespace
        ≡ (if contains namespaces k then some (stuck_in k) else lookup k r.stuck_by_namespace)
  unfolding count_from
  count_from-at [] r k h = refl
  count_from-at (ns ∷ more) r k h = elim (Result-cases (list_pods ns s)) [
    | inr (x, e) ↦ let h1 = rw (e, count_from) at h in cc
    | inl (pods, e) ↦
        let r' : TerminationReport = record r {
          stuck_by_namespace = insert ns 0 r.stuck_by_namespace;
        } in
        let rest = count_from-at more (count_pods ns now r' pods) k (rw (e, count_from) at h) in
        rw (e, count_from) (rest ∙ counted_then r pods more k e)
  ]

  -- The gauge after `checkTermination`, which leaves it as it is where a list fails.
  unfoldable pub gauge_after : List String → Bool → Dict ℕ → Dict ℕ
  gauge_after namespaces scale_up gauge =
      let (report, failure) = count_terminating_pods list_pods now s namespaces in
      let counted : Dict ℕ = elim failure [
        | none ↦ set_series report.stuck_by_namespace gauge
        | some e ↦ gauge
      ] in
      if scale_up then clear_stuck_terminating_pods namespaces gauge else counted

  -- Where the lists succeed, the gauge shows for each namespace of the schedule the number of its
  -- stuck pods, or 0 on the way up; for every other namespace it keeps what it showed.
  pub gauge_follows :
      (namespaces : List String) (scale_up : Bool) (gauge : Dict ℕ) (k : String)
      → (count_terminating_pods list_pods now s namespaces).1 ≡ none
      → lookup k (gauge_after namespaces scale_up gauge) ≡ (
          if contains namespaces k
          then some (if scale_up then 0 else stuck_in k)
          else lookup k gauge)
  unfolding gauge_after lookup
  gauge_follows namespaces true gauge k h = lookup-clear namespaces gauge k
  gauge_follows namespaces false gauge k h =
      rw (h, gauge_after)
        (lookup-set_series (count_terminating_pods list_pods now s namespaces).0.stuck_by_namespace
            gauge k
          ∙ rw (count_from-at namespaces no_report k h) (ground arith))
