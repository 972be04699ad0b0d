-- ===== src/Agent.antt =====
-- The node agent, src/agent.
pub mod Display
pub mod Updater
