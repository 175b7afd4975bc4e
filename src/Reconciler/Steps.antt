-- ===== src/Reconciler/Steps.antt =====
-- How a reconcile of either kind of schedule begins and ends: `Reconcile`, `setErrorCondition` and
-- `handleDeletion` of internal/controller/lightsoutschedule_controller.go.
use lightsout.Base.{ℕ, ◌*◌, String, Option, none, some, List}
use lightsout.Base.{Result, ok, err, ◌==◌, if◌then◌else◌}
use lightsout.Base.Int.{ℤ, pos}
use lightsout.Constants.{second, finalizer_name, default_timezone}
use lightsout.Api.{ScheduleCore}
use lightsout.Period.{Calendar, PeriodCache, PeriodResult, calculate_period}
use lightsout.Webhook.Fields.{is_empty}
use lightsout.Status.{NamespaceScheduleStatus, Stored}
use lightsout.Reconciler.Server.{Store, Util}
use lightsout.Reconciler.Cycle.{failed_condition}

-- `ctrl.Result` and the error: how long to wait, 0 for no wait. The cache of the periods is a
-- variable of the package, and the gauge is `ScheduleState` where it was set.
pub record Reconciled (S : Type 0) : Type 0 where
  pub answer : Result ℤ
  pub cache : PeriodCache
  pub gauge : Option ℕ
  pub state : S

abbrev pub answered : {S : Type 0} → Result ℤ → PeriodCache → S → Reconciled S
answered answer cache s = record { answer = answer; cache = cache; gauge = none; state = s }

-- What `Update` answers, as the end of a reconcile with this wait.
abbrev pub after_update : {S Obj : Type 0} → ℤ → PeriodCache → Result Obj × S → Reconciled S
after_update wait cache (ok o, s) = answered (ok wait) cache s
after_update wait cache (err e, s) = answered (err e) cache s

-- The end of a reconcile, from what the write of the status answers.
abbrev pub after_status :
    {S : Type 0} → (wait : ℤ) (gauge : ℕ) → PeriodCache → Option String × S → Reconciled S
after_status wait gauge cache (none, s) = record {
  answer = ok wait;
  cache = cache;
  gauge = some gauge;
  state = s;
}
after_status wait gauge cache (some e, s) = answered (err e) cache s

abbrev pub timezone_of : ScheduleCore → String
timezone_of core = if core.timezone == "" then default_timezone else core.timezone

-- `CalculatePeriod` of a schedule
abbrev pub period_of : Calendar → ScheduleCore → ℤ → PeriodCache → Result PeriodResult × PeriodCache
period_of k core now cache =
    calculate_period k core.upscale core.downscale (timezone_of core) now cache

-- The error condition of `setErrorCondition`, in a status.
abbrev pub with_failure : Util → ℤ → String → NamespaceScheduleStatus → NamespaceScheduleStatus
with_failure u generation message st = record st {
  conditions = u.set_status_condition (failed_condition generation message) st.conditions;
}

module _ {S Sched Status : Type 0} (u : Util) (store : Store S (Stored Sched Status)) where
  -- The finalizer is stored before anything else is done.
  unfoldable pub register : Stored Sched Status → PeriodCache → S → Reconciled S
  register o cache s =
      after_update (pos second) cache
        (store.update (record o { finalizers = u.add_finalizer finalizer_name o.finalizers }) s)

  -- The end of `handleDeletion`: the finalizer goes if nothing failed.
  unfoldable pub end_deletion : Stored Sched Status → List String → PeriodCache → S → Reconciled S
  end_deletion o errors cache s =
      if is_empty errors
      then after_update (pos 0) cache (
          store.update (record o { finalizers = u.remove_finalizer finalizer_name o.finalizers }) s)
      else answered (ok (pos (5 * second))) cache s

  -- `setErrorCondition` of the object with that status, and the error.
  abbrev pub fail : Stored Sched Status → String → PeriodCache → S → Reconciled S
  fail o' e cache s = answered (err e) cache (store.update_status o' s).1
