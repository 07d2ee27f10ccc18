-- ===== src/Agent.antt =====
-- The agent's side: internal/agent.
pub mod Spool
