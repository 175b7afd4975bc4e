-- ===== src/Kube.antt =====
-- The Kubernetes objects that the scaler reads and patches, with the fields that the source reads,
-- the merge patches of internal/controller/patch.go, and the API client as an interface.
pub mod Objects
pub mod Patch
pub mod Client
pub mod Cluster
pub mod Memory
