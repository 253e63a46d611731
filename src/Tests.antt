-- ===== src/Tests.antt =====
-- The development's tests: the theorems at concrete inputs.
pub mod Host
pub mod Executor
pub mod Approvals
pub mod Permissions
pub mod Coding
pub mod Computer
pub mod Trails
pub mod Provider
