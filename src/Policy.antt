-- ===== src/Policy.antt =====
-- Who may run what: the classification of a call, the permission policy and the decision.
pub mod ToolPermission
pub mod ToolchainSupervisor
pub mod PermissionEngine
