-- ===== src/Controller.antt =====
-- controllers/werfbundle_controller.go: the reconciler.
pub mod Cluster
pub mod Status
pub mod JobLogs
pub mod Monitor
pub mod Ensure
pub mod Polling
pub mod Reconcile
pub mod Setup
pub mod Panics
pub mod SingleJob
pub mod Statuses
pub mod Guards
pub mod Isolation
pub mod Endings
pub mod Applied
pub mod Superseded
pub mod Progress
pub mod Quiet
pub mod Caching
pub mod Retries
pub mod Invariants
pub mod Runs
pub mod Launches
pub mod Failures
pub mod Rejections
