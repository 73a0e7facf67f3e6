-- ===== src/Report.antt =====
-- The report exporter, internal/component/reportexporter.
pub mod Summary
pub mod Counts
pub mod Rulesets
pub mod Outputs
pub mod Workers
pub mod Export
