-- ===== src/Reconciler/Server.antt =====
-- What the reconcilers ask of the API server and of controller-runtime. None of it is part of the
-- repository.
use lightsout.Base.{ℕ, String, ◌≡◌, Bool, true, false, Option, List, Result}
use lightsout.Base.Int.{ℤ}
use lightsout.Kube.Objects.{Replicated, CronJob}
use lightsout.Kube.Cluster.{Cluster, LabelSelector}
use lightsout.Status.{Condition}

-- What `Get` answers; `apierrors.IsNotFound` tells the second from the third.
pub data Fetched (Obj : Type 0) : Type 0 where
  fetched : Obj → Fetched Obj
  not_found : Fetched Obj
  get_failed : String → Fetched Obj

-- The calls on one kind of schedule. `update` answers with the object as the server holds it, and
-- `update_status` with the error, where there is one.
pub record Store (S Obj : Type 0) : Type 0 where
  pub fetch : String → S → Fetched Obj
  pub update : Obj → S → Result Obj × S
  pub update_status : Obj → S → Option String × S

-- The lists of the workloads that carry `ManagedByLabel` with a schedule's name, in a namespace or
-- in the whole cluster; the namespaces that a selector selects, and the number of namespace
-- schedules that a list with limit 1 returns; and the clock, `TimeFunc` or `time.Now`.
pub record Lists (c : Cluster) : Type 0 where
  pub deployments : Option String → String → c.client.State → Result (List Replicated)
  pub stateful_sets : Option String → String → c.client.State → Result (List Replicated)
  pub cron_jobs : Option String → String → c.client.State → Result (List CronJob)
  pub select : LabelSelector → c.client.State → Result (List String)
  pub local_schedules : String → c.client.State → Result ℕ
  pub now : c.client.State → ℤ

-- The functions of `controllerutil` on the finalizers, `meta.SetStatusCondition`, and the text of
-- `context.Canceled`.
pub record Util : Type 0 where
  pub contains_finalizer : List String → String → Bool
  pub add_finalizer : String → List String → List String
  pub remove_finalizer : String → List String → List String
  pub set_status_condition : Condition → List Condition → List Condition
  pub cancellation : String

-- What controllerutil documents of the finalizers.
pub record IsUtil (u : Util) : Type 0 where
  pub contains-add :
      (f : String) (fs : List String) → u.contains_finalizer (u.add_finalizer f fs) f ≡ true
  pub contains-remove :
      (f : String) (fs : List String) → u.contains_finalizer (u.remove_finalizer f fs) f ≡ false
