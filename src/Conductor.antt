-- ===== src/Conductor.antt =====
-- codex-conductor: admission, routing and lifecycle accounting of subagent work.
pub mod Schemas
pub mod Lifecycle
pub mod Policy
pub mod Store
pub mod Hook
pub mod Accounting
