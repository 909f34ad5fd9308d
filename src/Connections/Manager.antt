-- ===== src/Connections/Manager.antt =====
-- The pool that lends connections out: crates/connections/src/manager and guard.rs.
pub mod State
pub mod Acquire
pub mod Pool
pub mod Reports
pub mod System
