-- ===== src/Schedule.antt =====
-- The reconciler of ScheduledComplianceScans, internal/reconciler/scheduledcompliancescan.
pub mod ChildName
pub mod Cleanup
pub mod Children
pub mod Reconcile
pub mod Single
