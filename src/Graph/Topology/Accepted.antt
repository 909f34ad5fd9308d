-- ===== src/Graph/Topology/Accepted.antt =====
-- Which graphs `topology_for_edges` accepts, and what the topology of an accepted graph is.
use nazh.Base.{
  ◌≤◌, ◌≡◌, refl, sym, ◌∙◌, ◌↔◌, inl, inr, String, List, [], length, sum_cases, Dict, arith,
}
use nazh.Graph.Types.{WorkflowEdge, WorkflowTopology}
use nazh.Graph.Topology.{
  keys, each_node, Degrees, add_edges, zeros, sort, neighbors, kahn, topology_for_edges,
}
use nazh.Graph.Topology.Count.{occurs, occurs-sort, occurs_full}
use nazh.Graph.Topology.Waiting.{IsTopological}
use nazh.Graph.Topology.Degrees.{Joined}
use nazh.Graph.Topology.Collect.{add_edges_total}
use nazh.Graph.Topology.Outgoing.{out_of, collected-out_of}
use nazh.Graph.Topology.Correct.{
  Sortable, is_root, length-keys, collected, occurs-roots, drained, drained_lem, drained_all,
  ordered_once, IsReady,
}

-- The order holds every node exactly as often as the graph does (once), each after the sources of its
-- edges; the roots are the nodes with no edge into them; the downstream list of an id is the edges that leave it, in their order.
pub record IsTopologyOf (ids : List String) (es : List WorkflowEdge) (t : WorkflowTopology)
    : Type 0 where
  pub permutes : (u : String) → occurs u t.deployment_order ≡ occurs u ids
  pub sorted : IsTopological es [] t.deployment_order
  pub roots : (u : String) → occurs u t.root_nodes ≡ is_root ids es u
  pub lists : (v : String) → neighbors t.downstream v ≡ out_of v es

module _ {V : Type 0} (nodes : Dict V) (unique : (u : String) → occurs u (keys nodes) ≤ 1)
    (es : List WorkflowEdge) where
  abbrev order_of : Degrees → List String
  order_of d = (drained nodes unique es sort occurs-sort d).1

  abbrev made : Degrees → WorkflowTopology
  made d = record { root_nodes = sort (zeros d.0); downstream = d.1; deployment_order = order_of d }

  kahn_full : (d : Degrees) → length (order_of d) ≡ length nodes → kahn nodes d ≡ inr (made d)
  unfolding kahn
  kahn_full d e = ground (arith, e)

  kahn-made :
      (d : Degrees) (t : WorkflowTopology)
      → kahn nodes d ≡ inr t
      → (length (order_of d) ≡ length nodes) × (made d ≡ t)
  unfolding kahn
  kahn-made d t e = ground (arith, e)

  made-IsTopologyOf :
      (d : Degrees)
      → IsReady nodes unique es d
      → ((v : String) → neighbors d.1 v ≡ out_of v es)
      → length (order_of d) ≡ length nodes
      → IsTopologyOf (keys nodes) es (made d)
  made-IsTopologyOf d h lists full = record {
    permutes =
        occurs_full (order_of d) (keys nodes) (ordered_once nodes unique es sort occurs-sort d h)
          (omega (arith, full, length-keys nodes));
    sorted = (drained_lem nodes unique es sort occurs-sort d h).1;
    roots = occurs-roots nodes unique es sort occurs-sort d h;
    lists = lists;
  }

  abbrev begin : Degrees
  begin = (each_node 0 nodes, each_node [] nodes)

  computed :
      (d : Degrees) → add_edges nodes es begin ≡ inr d → topology_for_edges nodes es ≡ kahn nodes d
  unfolding topology_for_edges
  computed d ok = rw (ok, topology_for_edges) refl

  found :
      (t : WorkflowTopology)
      → topology_for_edges nodes es ≡ inr t
      → (d : Degrees) × (add_edges nodes es begin ≡ inr d) × (kahn nodes d ≡ inr t)
  unfolding topology_for_edges
  found t e = elim (sum_cases (add_edges nodes es begin)) [
    | inl (x, refused) ↦ absurd (ground (arith, e, refused))
    | inr (d, ok) ↦ (d, ok, sym (computed d ok) ∙ e)
  ]

  -- If the node ids are unique, what `topology_for_edges` returns is a topology of the graph: a deployment order that has every
  -- node once and after the sources of all its edges, the nodes without an edge into them as roots, and
  -- as the downstream list of
  -- every id exactly the edges that leave it, in the order of the graph.
  pub topology-IsTopologyOf :
      (t : WorkflowTopology) → topology_for_edges nodes es ≡ inr t → IsTopologyOf (keys nodes) es t
  topology-IsTopologyOf t e =
      let (d, ok, k) = found t e in
      let (full, same) = kahn-made d t k in
      rw (← same) (
        made-IsTopologyOf d (collected nodes unique es d ok).0
          (λ v. collected-out_of nodes es d v ok) full)

  -- A graph with unique node ids has a topology exactly if every edge joins two of its nodes and the nodes can be put in an
  -- order in which each comes after the sources of its edges, that is, if it has no cycle.
  pub accepted_iff_Sortable :
      ((t : WorkflowTopology) × (topology_for_edges nodes es ≡ inr t))
      ↔ (Joined (keys nodes) es × Sortable (keys nodes) es)
  accepted_iff_Sortable = (sortable, accepted)
    where
      sortable :
          (t : WorkflowTopology) × (topology_for_edges nodes es ≡ inr t)
          → Joined (keys nodes) es × Sortable (keys nodes) es
      sortable (t, e) =
          let (d, ok, k) = found t e in
          let h = topology-IsTopologyOf t e in
          ((collected nodes unique es d ok).1, (t.deployment_order, h.permutes, h.sorted))

      accepted :
          Joined (keys nodes) es × Sortable (keys nodes) es
          → (t : WorkflowTopology) × (topology_for_edges nodes es ≡ inr t)
      accepted (joined, sortable_ids) =
          let (d, ok) = add_edges_total nodes es begin joined in
          let full =
            drained_all nodes unique es sort occurs-sort d (collected nodes unique es d ok).0
              sortable_ids in
          (made d, computed d ok ∙ kahn_full d full)
