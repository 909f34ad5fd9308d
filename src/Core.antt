-- ===== src/Core.antt =====
-- The engine's core (crates/core): the types of pins, the variables of a workflow, the data that waits for
-- its consumers and the cache of outputs.
pub mod Pin
pub mod Variables
pub mod Data
pub mod Cache
mod Tests
