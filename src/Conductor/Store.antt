-- ===== src/Conductor/Store.antt =====
-- The governance store of codex-conductor/src/conductor/store.py over the tables that SQLite keeps.
pub mod Result
pub mod Tables
pub mod Runs
pub mod Snapshots
pub mod Reservations
pub mod Events
pub mod Correlations
pub mod Maintenance
pub mod Costs
pub mod Leases
pub mod Recovery
pub mod Slots
pub mod Steps
pub mod Tests
