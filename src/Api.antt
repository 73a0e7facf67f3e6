-- ===== src/Api.antt =====
-- The API types of the operator (pkg/apis).
pub mod Meta
pub mod Scan
pub mod Scheduled
pub mod Report
pub mod ReportOutput
pub mod Config
