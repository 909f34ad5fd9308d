-- ===== src/Graph/Pins/Compatible.antt =====
-- What `validate_pin_compatibility` accepts.
use nazh.Base.{◌≡◌, ◌↔◌, List, inr, Dict, All}
use nazh.Base.Results.{>>=_elim}
use nazh.Graph.Types.{WorkflowEdge}
use nazh.Graph.Pins.{
  NodePins, check_edges, check_required, check_reserved, check_inputs, build_indexes,
  validate_pin_compatibility,
}
use nazh.Graph.Pins.Indexed.{HasDistinctPins, indexes_of, build_indexes_inv, build_indexes_total}
use nazh.Graph.Pins.Joined.{IsJoined, check_edges_iff}
use nazh.Graph.Pins.Inputs.{
  IsSupplied, IsUnreserved, check_required_iff, check_reserved_iff, check_inputs_iff,
}

module _ {N : Type 0} where
  pub record IsCompatible (nodes : Dict (NodePins N)) (edges : List WorkflowEdge) : Type 0 where
    pub distinct : All HasDistinctPins nodes
    pub joined : All (IsJoined nodes) edges
    pub supplied : All (λ n. All (IsSupplied edges n.0) n.1.input_pins) nodes
    pub unreserved : All (λ n. All IsUnreserved n.1.input_pins) nodes

  -- `validate_pin_compatibility` accepts a graph exactly if no node has two pins of one direction with the same id,
  -- every edge joins an output pin to an input pin of existing nodes with fitting types and kinds (a missing
  -- pin id standing for "out" and "in"), every required input other than "in" has an edge into it, and no
  -- data or reactive input is named "in".
  pub accepted_iff_IsCompatible :
      (nodes : Dict (NodePins N)) (edges : List WorkflowEdge)
      → (validate_pin_compatibility nodes edges ≡ inr tt) ↔ IsCompatible nodes edges
  unfolding validate_pin_compatibility
  accepted_iff_IsCompatible nodes edges = (
    λ h. >>=_elim (build_indexes nodes) _ tt h λ indexes built checks.
        let (made, distinct) = build_indexes_inv nodes indexes built in
        >>=_elim (check_edges indexes edges) _ tt checks λ _ second others.
          >>=_elim (check_inputs (check_required edges) indexes) _ tt others λ _ third fourth.
            record {
              distinct = distinct;
              joined = (check_edges_iff nodes edges).0 (rw (← made) second);
              supplied = (supplied_iff nodes edges).0 (rw (← made) third);
              unreserved = (unreserved_iff nodes).0 (rw (← made) fourth);
            },
    λ c.
        let built = build_indexes_total nodes c.distinct in
        let second = (check_edges_iff nodes edges).1 c.joined in
        let third = (supplied_iff nodes edges).1 c.supplied in
        rw (built, second, third) ((unreserved_iff nodes).1 c.unreserved),
  )
    where
      supplied_iff :
          (nodes : Dict (NodePins N)) (edges : List WorkflowEdge)
          → (check_inputs (check_required edges) (indexes_of nodes) ≡ inr tt)
            ↔ All (λ n. All (IsSupplied edges n.0) n.1.input_pins) nodes
      supplied_iff nodes edges =
          check_inputs_iff (check_required edges) (IsSupplied edges) (check_required_iff edges)
            nodes

      unreserved_iff :
          (nodes : Dict (NodePins N))
          → (check_inputs check_reserved (indexes_of nodes) ≡ inr tt)
            ↔ All (λ n. All IsUnreserved n.1.input_pins) nodes
      unreserved_iff nodes =
          check_inputs_iff check_reserved (λ _. IsUnreserved) check_reserved_iff nodes
