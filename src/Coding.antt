-- ===== src/Coding.antt =====
-- agent/coding and agent/debug: the verification scripts of a project and the bounded repair loop.
pub mod SelfDebugger
pub mod VerificationEngine
pub mod RepairLoop
pub mod RepairSession
pub mod RepairStore
pub mod RepairCoordinator
