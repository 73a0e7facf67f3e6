-- ===== src/Internal.antt =====
-- The internal version of the resources, pkg/apis/diki, and its conversions from and to v1alpha1.
pub mod Scan
pub mod Scheduled
pub mod Outputs
pub mod Convert
