-- ===== src/Scan.antt =====
-- The reconciler of ComplianceScans, internal/reconciler/compliancescan.
pub mod DikiConfig
pub mod Labels
pub mod Statuses
pub mod Reconcile
pub mod History
pub mod Events
