-- ===== src/App.antt =====
-- The agent's front: app/InteractiveSession.ts over the coding agent of agent/coding/CodingAgent.ts.
pub mod Commands
pub mod CodingAgent
pub mod Session
