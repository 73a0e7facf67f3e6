-- ===== src/Command.antt =====
-- The two commands, cmd/diki-operator/app and cmd/report-exporter/app, and what the operator
-- registers at its manager.
pub mod Registration
pub mod Options
pub mod Manager
pub mod Execute
pub mod Exporter
