-- ===== src/Scaler.antt =====
-- internal/controller/scaler.go and hpa.go: one workload is scaled down or up.
pub mod Outcome
pub mod Hpa
pub mod Replicas
pub mod CronJobs
pub mod Upscaled
