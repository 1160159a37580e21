-- ===== src/Toolbelt.antt =====
-- toolbelt: which developer tools a repository should have, the plan that installs them, and the
-- transaction that carries the plan out.
pub mod Errors
pub mod Schemas
pub mod Policy
pub mod Planner
pub mod State
pub mod Declaration
pub mod Executor
mod Tests
