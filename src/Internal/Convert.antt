-- ===== src/Internal/Convert.antt =====
-- The conversions between the versions of the resources.
pub mod ToDiki
pub mod ToV1alpha1
pub mod Maps
pub mod External
pub mod Internal
pub mod Outputs
pub mod RoundTrip
