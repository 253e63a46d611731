-- ===== src/Computer.antt =====
-- agent/computer: what becomes of a computer action once it has been carried out.
pub mod Validator
pub mod Policy
pub mod VerificationPolicy
pub mod Lifecycle
pub mod Controller
pub mod Workflow
