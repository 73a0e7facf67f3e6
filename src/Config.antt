-- ===== src/Config.antt =====
-- The operator's configuration, pkg/apis/config/v1alpha1: what is filled in and what is refused.
pub mod Defaults
pub mod Validation
