-- ===== src/Termination.antt =====
-- internal/controller/termination.go: the pods that are still running after a downscale.
pub mod Counts
pub mod Gauge
use lightsout.Base.{
  ℕ, ◌+◌, ◌*◌, String, ◌<>◌, Bool, true, false, ◌&&◌, ◌||◌, not, Option, none, some, List, [], ◌∷◌,
  ◌++◌, ◌-◌,
}
use lightsout.Base.{◌==◌, if◌then◌else◌, eqb, Result, ok, err}
use lightsout.Base.Names.{sort_names}
use lightsout.Base.Dict.{Dict, lookup, insert}
use lightsout.Base.Int.{ℤ, pos, negsuc, ltb_ℤ, min_ℤ, ◌+ℤ◌}
use lightsout.Kube.Objects.{Pod}
use lightsout.Constants.{second, termination_grace_slack, termination_check_interval}

-- `terminationReport`
pub record TerminationReport : Type 0 where
  pub terminating : ℕ
  pub stuck : ℕ
  pub stuck_by_namespace : Dict ℕ
  pub stuck_names : List String

abbrev pub no_report : TerminationReport
no_report = record { terminating = 0; stuck = 0; stuck_by_namespace = []; stuck_names = [] }

-- A number of seconds as a duration.
abbrev seconds : ℤ → ℤ
seconds (pos n) = pos (n * second)
seconds (negsuc n) = negsuc (n * second + (second - 1))

abbrev grace_of : Option ℤ → ℤ
grace_of none = pos 0
grace_of (some s) = seconds s

-- `isTerminationOverdue` of a pod with this deletion timestamp
unfoldable pub is_termination_overdue : Pod → ℤ → ℤ → Bool
is_termination_overdue pod deleted now =
    ltb_ℤ ((deleted +ℤ grace_of pod.deletion_grace_period_seconds) +ℤ termination_grace_slack) now

abbrev is_finished : Pod → Bool
is_finished pod = pod.phase == "Succeeded" || pod.phase == "Failed"

-- A pod that is on its way out: it is being deleted and has not finished.
unfoldable pub is_terminating : Pod → Bool
is_terminating pod = elim (pod.deletion_timestamp) [ none ↦ false | some d ↦ not (is_finished pod) ]

unfoldable pub is_stuck : Pod → ℤ → Bool
is_stuck pod now = elim (pod.deletion_timestamp) [
  | none ↦ false
  | some d ↦ not (is_finished pod) && is_termination_overdue pod d now
]

-- `m[k]++` on a map of numbers
abbrev increment : String → Dict ℕ → Dict ℕ
increment k d = insert k (elim (lookup k d) [ none ↦ 1 | some n ↦ n + 1 ]) d

-- The body of the loop over a namespace's pods.
unfoldable pub count_pod : String → ℤ → TerminationReport → Pod → TerminationReport
count_pod ns now r pod =
    if is_terminating pod
    then (if is_stuck pod now
        then record r {
          terminating = r.terminating + 1;
          stuck = r.stuck + 1;
          stuck_by_namespace = increment ns r.stuck_by_namespace;
          stuck_names = r.stuck_names ++ ((ns <> "/" <> pod.name) ∷ []);
        }
        else record r { terminating = r.terminating + 1 })
    else r

unfoldable pub count_pods : String → ℤ → TerminationReport → List Pod → TerminationReport
count_pods ns now r [] = r
count_pods ns now r (pod ∷ pods) = count_pods ns now (count_pod ns now r pod) pods

module _ {S : Type 0} (list_pods : String → S → Result (List Pod)) (now : ℤ) (s : S) where
  -- The loop over the namespaces: the report, and the error of the list that failed.
  unfoldable pub count_from : List String → TerminationReport → TerminationReport × Option String
  count_from [] r = (record r { stuck_names = sort_names r.stuck_names }, none)
  count_from (ns ∷ more) r =
      let r' : TerminationReport = record r {
        stuck_by_namespace = insert ns 0 r.stuck_by_namespace;
      } in
      elim (list_pods ns s) [
        | err e ↦ (r', some e)
        | ok pods ↦ count_from more (count_pods ns now r' pods)
      ]

  -- `countTerminatingPods`
  abbrev pub count_terminating_pods : List String → TerminationReport × Option String
  count_terminating_pods namespaces = count_from namespaces no_report

  abbrev unless_failed : TerminationReport × Option String → TerminationReport
  unless_failed (r, none) = r
  unless_failed (r, some e) = no_report

  -- The report of `checkTermination` of the reconciler: nothing while the schedule is up, or where
  -- a list failed.
  unfoldable pub check_termination : List String → Bool → TerminationReport
  check_termination namespaces scale_up =
      if scale_up then no_report else unless_failed (count_terminating_pods namespaces)

-- `applyTerminationRequeue`
abbrev pub apply_termination_requeue : ℤ → TerminationReport → Bool → ℤ
apply_termination_requeue requeue_after report just_scaled_down =
    if eqb report.terminating 0 && not just_scaled_down
    then requeue_after
    else min_ℤ requeue_after termination_check_interval
