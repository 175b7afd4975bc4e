-- ===== src/Metrics.antt =====
-- The series of internal/controller/metrics.go. The vectors of github.com/prometheus/client_golang are
-- a parameter: a vector is a set of series, each the values of the vector's labels in their order.
use lightsout.Base.{
  String, String-discrete, ◌≡◌, Bool, false, not, ◌&&◌, List, [], ◌∷◌, ◌==◌, if◌then◌else◌,
}

abbrev label_schedule : String
label_schedule = "schedule"

abbrev label_transition_type : String
label_transition_type = "transition_type"

abbrev label_namespace : String
label_namespace = "namespace"

abbrev label_workload_type : String
label_workload_type = "workload_type"

abbrev label_kind : String
label_kind = "kind"

abbrev label_operation : String
label_operation = "operation"

abbrev label_direction : String
label_direction = "direction"

abbrev label_result : String
label_result = "result"

-- The metrics, by the names of their variables.
pub data Metric : Type 0 where
  schedule_state next_transition_seconds scaling_operations_total scaling_errors_total : Metric
  managed_workloads scaled_workloads managed_custom_resources scaling_batches_total : Metric
  scaling_workloads_processed scaling_duration_seconds stuck_terminating_pods : Metric
  last_reconcile_time : Metric

-- The labels that each variable is declared with.
unfoldable pub labels_of : Metric → List String
labels_of schedule_state = label_schedule ∷ []
labels_of next_transition_seconds = label_schedule ∷ label_transition_type ∷ []
labels_of scaling_operations_total =
    label_schedule ∷ label_namespace ∷ label_workload_type ∷ label_operation ∷ []
labels_of scaling_errors_total = label_schedule ∷ label_namespace ∷ label_workload_type ∷ []
labels_of managed_workloads = label_schedule ∷ label_workload_type ∷ []
labels_of scaled_workloads = label_schedule ∷ label_workload_type ∷ []
labels_of managed_custom_resources = label_schedule ∷ label_kind ∷ []
labels_of scaling_batches_total = label_schedule ∷ label_direction ∷ []
labels_of scaling_workloads_processed = label_schedule ∷ label_direction ∷ label_result ∷ []
labels_of scaling_duration_seconds = label_schedule ∷ label_direction ∷ []
labels_of stuck_terminating_pods = label_schedule ∷ label_namespace ∷ []
labels_of last_reconcile_time = label_schedule ∷ []

-- `prometheus.Labels` of one pair
pub record LabelPair : Type 0 where
  pub name : String
  pub value : String

-- Whether a series has that value under that label.
abbrev pub carries : LabelPair → (labels values : List String) → Bool
carries l [] values = false
carries l (k ∷ ks) [] = false
carries l (k ∷ ks) (v ∷ vs) = if k == l.name then v == l.value else carries l ks vs

-- A vector and its method, for a vector with the labels that are given.
pub record Vectors : Type 1 where
  pub Vec : Type 0
  pub has : Vec → List String → Bool
  pub delete_partial_match : (labels : List String) → LabelPair → Vec → Vec

-- What the package documents: `DeletePartialMatch` deletes every series that carries the label, and
-- no other.
abbrev pub IsPartialMatch : Vectors → Type 0
IsPartialMatch x =
    (labels : List String) (l : LabelPair) (v : x.Vec) (values : List String)
    → x.has (x.delete_partial_match labels l v) values
      ≡ (x.has v values && not (carries l labels values))

module _ (x : Vectors) where
  -- The variables, as one value.
  abbrev pub Registry : Type 0
  Registry = Metric → x.Vec

  -- One call of `DeletePartialMatch` with the schedule's label, on one variable.
  unfoldable delete_in : Metric → String → Registry → x.Vec
  unfolding labels_of
  delete_in m label r =
      x.delete_partial_match (labels_of m) (record { name = label_schedule; value = label }) (r m)

  -- `clearScheduleMetrics`
  unfoldable pub clear_schedule_metrics : String → Registry → Registry
  unfolding delete_in
  clear_schedule_metrics label r schedule_state = delete_in schedule_state label r
  clear_schedule_metrics label r next_transition_seconds = delete_in next_transition_seconds label r
  clear_schedule_metrics label r scaling_operations_total =
      delete_in scaling_operations_total label r
  clear_schedule_metrics label r scaling_errors_total = delete_in scaling_errors_total label r
  clear_schedule_metrics label r managed_workloads = delete_in managed_workloads label r
  clear_schedule_metrics label r scaled_workloads = delete_in scaled_workloads label r
  clear_schedule_metrics label r managed_custom_resources =
      delete_in managed_custom_resources label r
  clear_schedule_metrics label r scaling_batches_total = delete_in scaling_batches_total label r
  clear_schedule_metrics label r scaling_workloads_processed =
      delete_in scaling_workloads_processed label r
  clear_schedule_metrics label r scaling_duration_seconds =
      delete_in scaling_duration_seconds label r
  clear_schedule_metrics label r stuck_terminating_pods = delete_in stuck_terminating_pods label r
  clear_schedule_metrics label r last_reconcile_time = delete_in last_reconcile_time label r

  -- Clearing a schedule's metrics deletes of every metric the series of that schedule, and no series
  -- of another one.
  pub cleared_series :
      IsPartialMatch x
      → (label : String) (r : Registry) (m : Metric) (schedule : String) (values : List String)
      → x.has (clear_schedule_metrics label r m) (schedule ∷ values)
        ≡ (x.has (r m) (schedule ∷ values) && not (schedule == label))
  unfolding clear_schedule_metrics delete_in labels_of String-discrete
  cleared_series h label r schedule_state schedule values = h _ _ _ _
  cleared_series h label r next_transition_seconds schedule values = h _ _ _ _
  cleared_series h label r scaling_operations_total schedule values = h _ _ _ _
  cleared_series h label r scaling_errors_total schedule values = h _ _ _ _
  cleared_series h label r managed_workloads schedule values = h _ _ _ _
  cleared_series h label r scaled_workloads schedule values = h _ _ _ _
  cleared_series h label r managed_custom_resources schedule values = h _ _ _ _
  cleared_series h label r scaling_batches_total schedule values = h _ _ _ _
  cleared_series h label r scaling_workloads_processed schedule values = h _ _ _ _
  cleared_series h label r scaling_duration_seconds schedule values = h _ _ _ _
  cleared_series h label r stuck_terminating_pods schedule values = h _ _ _ _
  cleared_series h label r last_reconcile_time schedule values = h _ _ _ _
