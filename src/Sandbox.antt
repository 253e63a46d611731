-- ===== src/Sandbox.antt =====
-- agent/sandbox: what a command must pass before a worker runs it.
pub mod Execution
pub mod Commands
pub mod Terminal
