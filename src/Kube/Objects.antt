-- ===== src/Kube/Objects.antt =====
-- The objects of k8s.io/api that internal/controller reads, reduced to the fields it reads.
use lightsout.Base.{String, Bool, Option, none, some, List}
use lightsout.Base.Dict.{Dict}
use lightsout.Base.Int.{ℤ}

-- `metav1.ObjectMeta`. An owner reference is its `Controller` pointer.
pub record ObjectMeta : Type 0 where
  pub name : String
  pub namespace : String
  pub labels : Dict String
  pub annotations : Dict String
  pub owner_references : List (Option Bool)
  pub generation : ℤ

-- `appsv1.Deployment` and `appsv1.StatefulSet`, which have the same fields here.
pub record Replicated : Type 0 where
  pub meta : ObjectMeta
  pub replicas : Option ℤ
  pub observed_generation : ℤ
  pub status_replicas : ℤ
  pub ready_replicas : ℤ

-- `batchv1.CronJob`
pub record CronJob : Type 0 where
  pub meta : ObjectMeta
  pub suspend : Option Bool

-- A HorizontalPodAutoscaler as `unstructured.NestedString` reads it: "" for an absent field.
pub record Hpa : Type 0 where
  pub meta : ObjectMeta
  pub target_kind : String
  pub target_name : String
  pub select_policy : String

-- An ArgoCD Application, with its `spec.destination.namespace`.
pub record App : Type 0 where
  pub meta : ObjectMeta
  pub destination_namespace : Option String

-- A FluxCD Kustomization or HelmRelease; "" stands for an absent `spec.targetNamespace`.
pub record FluxResource : Type 0 where
  pub meta : ObjectMeta
  pub target_namespace : String
  pub suspend : Option Bool

-- `corev1.Pod`, reduced to the fields that are read; the grace period is in seconds. The owner is
-- the kind of its controller, and a condition its type and status.
pub record Pod : Type 0 where
  pub name : String
  pub deletion_timestamp : Option ℤ
  pub deletion_grace_period_seconds : Option ℤ
  pub phase : String
  pub controller_kind : Option String
  pub conditions : List (String × String)

-- The list of a namespace's HPAs; `none` is the nil list.
abbrev pub HpaList : Type 0
HpaList = Option (List Hpa)

-- `ptr.Deref(p, d)`
abbrev pub deref {ℓ} : {A : Type ℓ} → Option A → A → A
deref none d = d
deref (some a) d = a
