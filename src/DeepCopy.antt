-- ===== src/DeepCopy.antt =====
-- The deep copies of pkg/apis/diki/v1alpha1/zz_generated.deepcopy.go over an explicit memory of
-- cells, where pointers and slices are addresses.
pub mod Memory
pub mod Fresh
pub mod Pointers
pub mod Isolation
pub mod Layout
pub mod Cells
pub mod Machinery
pub mod Specs
pub mod Statuses
pub mod Scans
pub mod Outputs
pub mod Schedules
pub mod Roots
pub mod Patch
pub mod Config
