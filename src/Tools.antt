-- ===== src/Tools.antt =====
-- The tools, and the execution of one call behind its checks.
pub mod ToolRegistry
pub mod SafeToolExecutor
