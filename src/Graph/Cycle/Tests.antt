-- ===== src/Graph/Cycle/Tests.antt =====
-- Runs of the cycle check: a chain of two edges, and two nodes that read each other.
use nazh.Base.{ℕ, ◌≡◌, ◌↔◌, refl, none, String, [], ◌∷◌, ◌++◌, inl, inr, length, lookup, insert}
use nazh.Graph.Types.{WorkflowEdge, value_cyclic}
use nazh.Graph.Classify.{ClassifiedEdges}
use nazh.Graph.Topology.{zeros}
use nazh.Graph.Cycle.{
  touch, count_target, push_target, add_names, relax_names, consume, non_exec_cycle,
  detect_non_exec_edge_cycle,
}
use nazh.Graph.Cycle.Positions.{IsRanked}
use nazh.Graph.Cycle.Ranked.{accepted_iff_IsRanked}

abbrev link : String → String → WorkflowEdge
link source target = record {
  from = source;
  to = target;
  source_port_id = none;
  target_port_id = none;
  backpressure_policy = none;
}

abbrev chain : ClassifiedEdges
chain = record {
  exec_edges = link "c" "a" ∷ [];
  data_edges = link "a" "b" ∷ [];
  reactive_edges = link "b" "c" ∷ [];
}

chain_accepted : detect_non_exec_edge_cycle chain ≡ inr tt
unfolding detect_non_exec_edge_cycle non_exec_cycle add_names touch count_target push_target consume
    relax_names zeros lookup insert
chain_accepted = refl

loop_refused :
    detect_non_exec_edge_cycle (record chain { reactive_edges = link "b" "a" ∷ [] })
    ≡ inl value_cyclic
unfolding detect_non_exec_edge_cycle non_exec_cycle add_names touch count_target push_target consume
    relax_names zeros lookup insert
loop_refused = refl

accepted_iff_IsRanked_example :
    let es = chain.data_edges ++ chain.reactive_edges in
    let d = add_names es ([], []) in
    ((consume (length d.0) d.1 d.0 (zeros d.0) 0).0 ≡ [])
    × ((detect_non_exec_edge_cycle chain ≡ inr tt) ↔ ((rank : String → ℕ) × IsRanked rank es))
accepted_iff_IsRanked_example = accepted_iff_IsRanked chain
