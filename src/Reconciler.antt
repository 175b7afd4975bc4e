-- ===== src/Reconciler.antt =====
-- The two reconcilers: internal/controller/lightsoutschedule_controller.go and
-- lightsoutnamespaceschedule_controller.go.
pub mod Server
pub mod Restore
pub mod Orphans
pub mod Cycle
pub mod Steps
pub mod Global
pub mod Namespaced
pub mod Deletion
pub mod Wakes
pub mod Reports
pub mod History
