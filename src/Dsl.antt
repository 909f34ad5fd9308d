-- ===== src/Dsl.antt =====
-- The compiler of the workflow language, crates/dsl-compiler: the check of the graph of states.
pub mod StateGraph
