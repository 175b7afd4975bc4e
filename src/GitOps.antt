-- ===== src/GitOps.antt =====
-- The GitOps controllers that are kept quiet while a schedule is down: internal/controller/argocd.go
-- and internal/controller/fluxcd.go. Both keep a state label on their resources that goes from down
-- to warming-up and away.
pub mod Readiness
pub mod Marks
pub mod ArgoCd
pub mod FluxCd
