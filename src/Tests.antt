-- ===== src/Tests.antt =====
-- Runs of the model over objects in memory, and the theorems at concrete data.
mod Data
mod Equality
mod Scans
mod Schedules
mod Conditions
mod Reports
mod Configs
mod Conversions
mod Copies
mod RawTexts
mod ConfigCopies
mod Schemes
mod Single
mod Commands
