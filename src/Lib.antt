-- ===== src/Lib.antt =====
-- LightsOut is a Kubernetes controller that scales workloads to zero at night and brings them back
-- in the morning. A schedule (api/v1alpha1) names two cron expressions and a set of namespaces;
-- each reconcile computes the period it is in, collects the workloads of the namespaces, scales
-- each of them, and decides when to run again. Where each part stands:
--
--   Constants            internal/constants: annotation keys, marks and times
--   Json, JsonPointer    decoded JSON values; internal/jsonpointer/jsonpointer.go: `Parse` and
--                        `Format` are `parse` and `format`, and JsonPointer/Values holds
--                        `GetValue`, `SetValue`, `DeleteValue` and `NormalizeValue`, which return
--                        the changed root where Go changes it in place, and JsonPointer/Expand
--                        `Expand`
--   Kube                 the objects of k8s.io/api that are read (Kube/Objects), the merge patches
--                        of internal/controller/patch.go (Kube/Patch), the API client (Kube/Client)
--                        and what else is asked of the cluster (Kube/Cluster). Kube/Memory is a
--                        concrete server for the runs in Tests
--   Scaler               internal/controller/scaler.go and hpa.go: `scale_replicas` is
--                        `scaleReplicas`, `scale_cron_job` is `ScaleCronJob`,
--                        `patch_hpa_for_downscale` and `restore_hpa` are the HPA's two operations.
--                        Each call takes the server's state and the namespace's HPA list, and
--                        returns its result with the object, list and state it leaves (`Outcome`)
--   Workload, Collect    internal/controller/batcher.go: the union of the workload kinds, the
--                        status counts, and `collectWorkloads`
--   SyncWave             internal/controller/syncwave.go: the order by wave and the gate
--   Batcher              `scaleWorkloads` of internal/controller/batcher.go: `scale_loop` is its
--                        loop, `Pass` the loop's variables, `Ended` how it returns
--   Period               internal/controller/period.go: `calculate_period` with its cache
--   Namespaces           internal/controller/namespace.go
--   Termination          internal/controller/termination.go: pods that outlive a downscale
--   Requeue              `calculateRequeueAfter` and `carriedWaveProgress` of
--                        internal/controller/lightsoutschedule_controller.go, and `warmupMayStart`
--                        of internal/controller/integrations.go
--   Reconciler           internal/controller/lightsoutschedule_controller.go and
--                        lightsoutnamespaceschedule_controller.go: `reconcile` and `handle_deletion`
--                        of Reconciler/Global and Reconciler/Namespaced, and what the two repeat in
--                        the same words (Cycle, Steps); `restoreManagedWorkloads` (Restore) and the
--                        release of namespaces that left a schedule (Orphans)
--   GitOps               internal/controller/argocd.go and fluxcd.go: GitOps/ArgoCd and GitOps/FluxCd
--                        hold the operations and the loops (`warm_argo_cd_app` is the body of the
--                        loop of `handleArgoCDWarmup`), GitOps/Readiness `CheckWorkloadReadiness`.
--                        GitOps/Marks/Phases holds the abstract warm-up that both are compared with
--   CustomResource       internal/controller/customresource.go: discovery (CustomResource/Access), the
--                        fields (Fields), the operator's verdict (Ready), the warm-up (Warmup) and
--                        the loops over the entries. `Resources` holds what is asked of the server
--                        and of unstructured objects
--   Integrations         internal/controller/integrations.go: the order of GitOps and CustomResource
--                        around the scaling
--   Webhook              internal/webhook: the field checks and defaults (Webhook/Fields), and the
--                        warnings and validators (Webhook/Overlap). An error is its kind and path
--   Events, Metrics      internal/controller/events.go, as values, and metrics.go: the labels and the
--                        deletion of a schedule's series
--   Api, Status          the specs and the statuses of api/v1alpha1
--   Base                 tests, lists, maps, integers, decimals and texts of the Go library
--
-- A reconcile of lightsoutschedule_controller.go calls Period for the direction, Namespaces for the
-- targets, Integrations around the pass, Collect and Batcher for the pass, whose loop calls Scaler
-- for each workload and SyncWave at each wave boundary; Termination and Requeue read the pass's
-- result. It returns its answer with the cache of the periods, the state gauge and the cluster's
-- state that it leaves (`Reconciled`).
--
-- The API server is a parameter: `Client` holds the patch of each kind of object as a function of
-- the server's state, and `IsMergePatch` states what RFC 7386 documents of a patch that the server
-- accepts. Nothing is assumed of one that it refuses, nor of what happens to the state between two
-- calls. `KeepsWorkloads` states that a patch of an HPA changes no workload. `Store`, `Lists` and
-- `Util` of Reconciler/Server are the further calls of the reconcilers.
-- github.com/robfig/cron is a parameter of Period, with `IsNext` for the documentation of
-- `Schedule.Next`, and `IsClock` for RFC 3339, which has whole seconds. A Go map is an association
-- list that is read by lookup; times and durations are integers of nanoseconds, without the
-- overflow of `time.Duration` after 292 years. The copy of a workload and the HPA list that Go
-- shares by pointer are passed on explicitly.
--
-- Loops over lists are structural. The search of `findLastOccurrence` has the source's own bound on
-- its iterations; `Regular` says what makes that bound enough, and `minute_suffices` shows that it
-- is for each frequency but the rarest. `itoa` prints on as many steps as the number, and
-- Base/Decimal shows that they are enough.
--
-- Not modelled: logs; the values of the metrics but for the state and the stuck pods; the events but
-- for those of events.go and of the stuck pods, which no operation reads; the text of an error
-- beyond its kind and place; the registration with the manager; cmd, charts and generated code.
pub mod Base
pub mod Constants
pub mod Json
pub mod Kube
pub mod Scaler
pub mod Workload
pub mod SyncWave
pub mod Collect
pub mod Batcher
pub mod Period
pub mod JsonPointer
pub mod Termination
pub mod Requeue
pub mod Namespaces
pub mod Api
pub mod CustomResource
pub mod Integrations
pub mod Status
pub mod Events
pub mod Metrics
pub mod Reconciler
pub mod GitOps
pub mod Webhook
pub mod Tests
