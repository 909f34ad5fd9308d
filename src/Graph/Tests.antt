-- ===== src/Graph/Tests.antt =====
-- Runs of the topological sort on a diamond of four nodes.
use nazh.Base.{
  ℕ, ◌≤◌, ◌<◌, ◌≡◌, ◌↔◌, inl, inr, refl, none, some, String, List, [], ◌∷◌, false, length, insert,
  contains_key, Dict, arith, str_eq, eq_iff, ◌+◌,
}
use nazh.Graph.Types.{WorkflowEdge, WorkflowTopology, cyclic, unknown_target}
use nazh.Graph.Topology.{
  keys, each_node, push_edge, count_edge, Degrees, add_edges, kahn, topology_for_edges, validate,
}
use nazh.Graph.Topology.Count.{one_if, occurs}
use nazh.Graph.Topology.Degrees.{Joined}
use nazh.Graph.Topology.Correct.{Sortable}
use nazh.Graph.Topology.Accepted.{IsTopologyOf, topology-IsTopologyOf, accepted_iff_Sortable}
use nazh.Graph.Topology.Valid.{validate_iff}

abbrev edge : String → String → WorkflowEdge
edge a b = record {
  from = a;
  to = b;
  source_port_id = none;
  target_port_id = none;
  backpressure_policy = none;
}

abbrev diamond_nodes : Dict ℕ
diamond_nodes = ("join", 0) ∷ ("right", 0) ∷ ("left", 0) ∷ ("timer", 0) ∷ []

abbrev diamond : List WorkflowEdge
diamond = edge "timer" "left" ∷ edge "timer" "right" ∷ edge "left" "join" ∷ edge "right" "join" ∷ []

diamond_order :
    (elim (topology_for_edges diamond_nodes diamond) [ inl e ↦ [] | inr t ↦ t.deployment_order ])
    ≡ "timer" ∷ "left" ∷ "right" ∷ "join" ∷ []
unfolding topology_for_edges add_edges each_node push_edge count_edge kahn contains_key insert
diamond_order = refl

loop_refused : topology_for_edges diamond_nodes (edge "join" "timer" ∷ diamond) ≡ inl cyclic
unfolding topology_for_edges add_edges each_node push_edge count_edge kahn contains_key insert
loop_refused = refl

stray_refused :
    validate diamond_nodes (edge "timer" "nowhere" ∷ []) ≡ some (unknown_target "nowhere")
unfolding validate topology_for_edges add_edges each_node push_edge count_edge kahn contains_key
    insert
stray_refused = refl

distinct : (a b u : String) → str_eq a b ≡ false → one_if (str_eq a u) + one_if (str_eq b u) ≤ 1
distinct a b u h = ground (arith, eq_iff a u, eq_iff b u, eq_iff a b, h)

diamond_unique : (u : String) → occurs u (keys diamond_nodes) ≤ 1
unfolding occurs
diamond_unique u = omega (
  arith,
  distinct "join" "right" u refl,
  distinct "join" "left" u refl,
  distinct "join" "timer" u refl,
  distinct "right" "left" u refl,
  distinct "right" "timer" u refl,
  distinct "left" "timer" u refl,
)

abbrev diamond_degrees : Degrees
diamond_degrees = (
  ("join", 2) ∷ ("right", 1) ∷ ("left", 1) ∷ ("timer", 0) ∷ [],
  ("join", [])
      ∷ ("right", edge "right" "join" ∷ [])
      ∷ ("left", edge "left" "join" ∷ [])
      ∷ ("timer", edge "timer" "left" ∷ edge "timer" "right" ∷ [])
      ∷ [],
)

diamond_added :
    add_edges diamond_nodes diamond (each_node 0 diamond_nodes, each_node [] diamond_nodes)
    ≡ inr diamond_degrees
unfolding add_edges each_node push_edge count_edge contains_key insert
diamond_added = refl

abbrev diamond_topology : WorkflowTopology
diamond_topology = record {
  root_nodes = "timer" ∷ [];
  downstream = diamond_degrees.1;
  deployment_order = "timer" ∷ "left" ∷ "right" ∷ "join" ∷ [];
}

diamond_sorted : topology_for_edges diamond_nodes diamond ≡ inr diamond_topology
unfolding topology_for_edges add_edges each_node push_edge count_edge kahn contains_key insert
diamond_sorted = refl

topology-IsTopologyOf_example : IsTopologyOf (keys diamond_nodes) diamond diamond_topology
topology-IsTopologyOf_example =
    topology-IsTopologyOf diamond_nodes diamond_unique diamond diamond_topology diamond_sorted

accepted_iff_Sortable_example :
    ((t : WorkflowTopology) × (topology_for_edges diamond_nodes diamond ≡ inr t))
    ↔ (Joined (keys diamond_nodes) diamond × Sortable (keys diamond_nodes) diamond)
accepted_iff_Sortable_example = accepted_iff_Sortable diamond_nodes diamond_unique diamond

validate_iff_example : (validate diamond_nodes diamond ≡ none) ↔ (
    (0 < length diamond_nodes)
    × Joined (keys diamond_nodes) diamond
    × Sortable (keys diamond_nodes) diamond)
validate_iff_example = validate_iff diamond_nodes diamond_unique diamond
