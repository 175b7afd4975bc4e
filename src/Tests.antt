-- ===== src/Tests.antt =====
-- Runs of the definitions on concrete data, and the theorems at inputs where their conditions hold.
pub mod Clock
pub mod CustomResources
pub mod GitOps
pub mod Admission
pub mod Reconciles
pub mod Reports
pub mod Cycles
pub mod Scaling
pub mod Waves
pub mod Passes
pub mod Periods
pub mod Requeues
pub mod Pointers
pub mod Discovery
