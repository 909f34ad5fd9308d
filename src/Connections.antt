-- ===== src/Connections.antt =====
-- The connection manager (crates/connections): governance policy, health state machine, and the
-- pool that lends connections out.
pub mod Types
pub mod Policy
pub mod Health
pub mod Governance
pub mod Validation
pub mod Manager
pub mod Json
mod Tests
