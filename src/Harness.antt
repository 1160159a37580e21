-- ===== src/Harness.antt =====
-- The collaboration harness of agent-harness/src/agent_harness.
pub mod Models
pub mod Log
pub mod Controller
pub mod Receipts
mod Tests
