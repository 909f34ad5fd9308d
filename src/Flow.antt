-- ===== src/Flow.antt =====
-- The nodes that steer a workflow, crates/nodes-flow: the state machine.
pub mod StateMachine
