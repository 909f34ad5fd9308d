-- ===== src/Graph/Pins/Joined.antt =====
-- The check of the edges: `check_edge` accepts an edge exactly if it joins fitting pins of nodes.
use nazh.Base.{
  ◌≡◌, ◌↔◌, refl, sym, ◌∙◌, ap, true, none, some, Option, String, List, [], ◌∷◌, inl, inr, Dict,
  lookup, All, arith, Option-cases,
}
use nazh.Base.Results.{>>=_elim}
use mathlib.Core.Option.{some_inj}
use nazh.Core.Pin.{PinDefinition, input, output, types_compatible, kinds_compatible}
use nazh.Graph.Types.{WorkflowEdge}
use nazh.Graph.Classify.{find_pin}
use nazh.Graph.Pins.{
  NodePins, NodePinIndex, PinError, missing_source, missing_target, unknown_pin, ok_or,
  source_pin_id, target_pin_id, check_pins, check_edge, check_edges,
}
use nazh.Graph.Pins.Indexed.{by_id, index_of, indexes_of, lookup-by_id, lookup-indexes_of}

ok_or_inv :
    {A : Type 0} (error : PinError) (o : Option A) (a : A) → ok_or error o ≡ inr a → o ≡ some a
ok_or_inv error none a h = absurd (ground arith)
ok_or_inv error (some b) a h = let p : b ≡ a = cc in ap some p

module _ {N : Type 0} where
  -- Both ends of the edge are pins of nodes, and their types and kinds fit.
  pub record IsJoined (nodes : Dict (NodePins N)) (e : WorkflowEdge) : Type 0 where
    pub source : NodePins N
    pub target : NodePins N
    pub from : PinDefinition N
    pub to : PinDefinition N
    pub source_found : lookup e.from nodes ≡ some source
    pub target_found : lookup e.to nodes ≡ some target
    pub from_found : find_pin (source_pin_id e) source.output_pins ≡ some from
    pub to_found : find_pin (target_pin_id e) target.input_pins ≡ some to
    pub types : types_compatible from.pin_type to.pin_type ≡ true
    pub kinds : kinds_compatible from.kind to.kind ≡ true

  check_pins_iff :
      (e : WorkflowEdge) (from to : PinDefinition N)
      → (check_pins e from to ≡ inr tt) ↔ (
          (types_compatible from.pin_type to.pin_type ≡ true)
          × (kinds_compatible from.kind to.kind ≡ true))
  unfolding check_pins
  check_pins_iff e from to = (λ h. ground (arith, h), λ h. ground (arith, h))

  indexed :
      (id : String) (nodes : Dict (NodePins N)) (index : NodePinIndex N)
      → lookup id (indexes_of nodes) ≡ some index
      → (pins : NodePins N) × (lookup id nodes ≡ some pins) × (index ≡ index_of pins)
  indexed id nodes index h = elim (Option-cases (lookup id nodes)) [
    | inl e ↦ absurd (ground (arith, h, lookup-indexes_of id nodes, e))
    | inr (pins, e) ↦
        let p : lookup id (indexes_of nodes) ≡ some (index_of pins) =
          lookup-indexes_of id nodes ∙ rw e refl in
        (pins, e, some_inj.0 (sym h ∙ p))
  ]

  found_pin :
      (id : String) (ps : List (PinDefinition N)) (index : Dict (PinDefinition N))
      (pin : PinDefinition N)
      → index ≡ by_id ps
      → lookup id index ≡ some pin
      → find_pin id ps ≡ some pin
  found_pin id ps index pin e h = sym (lookup-by_id id ps) ∙ ap (lookup id) (sym e) ∙ h

  module _ (nodes : Dict (NodePins N)) (e : WorkflowEdge) where
    check_edge-IsJoined : check_edge (indexes_of nodes) e ≡ inr tt → IsJoined nodes e
    unfolding check_edge
    check_edge-IsJoined h =
        >>=_elim (ok_or (missing_source e.from) (lookup e.from (indexes_of nodes))) _ tt h
          λ from_index first next.
            >>=_elim (ok_or (missing_target e.to) (lookup e.to (indexes_of nodes))) _ tt next
              λ to_index second after.
                >>=_elim
                  (ok_or (unknown_pin e.from (source_pin_id e) output)
                    (lookup (source_pin_id e) from_index.outputs))
                  _ tt after
                  λ from third last.
                    >>=_elim
                      (ok_or (unknown_pin e.to (target_pin_id e) input)
                        (lookup (target_pin_id e) to_index.inputs))
                      _ tt last
                      λ to fourth fit.
                        let (source, s, p) =
                          indexed e.from nodes from_index (ok_or_inv _ _ _ first) in
                        let (target, t, q) = indexed e.to nodes to_index (ok_or_inv _ _ _ second) in
                        let (types, kinds) = (check_pins_iff e from to).0 fit in
                        record {
                          source = source;
                          target = target;
                          from = from;
                          to = to;
                          source_found = s;
                          target_found = t;
                          from_found =
                              found_pin _ source.output_pins from_index.outputs from
                                (ap NodePinIndex.outputs p) (ok_or_inv _ _ _ third);
                          to_found =
                              found_pin _ target.input_pins to_index.inputs to
                                (ap NodePinIndex.inputs q) (ok_or_inv _ _ _ fourth);
                          types = types;
                          kinds = kinds;
                        }

    IsJoined-check_edge : IsJoined nodes e → check_edge (indexes_of nodes) e ≡ inr tt
    unfolding check_edge
    IsJoined-check_edge j =
        let first : lookup e.from (indexes_of nodes) ≡ some (index_of j.source) =
          lookup-indexes_of e.from nodes ∙ rw j.source_found refl in
        let second : lookup e.to (indexes_of nodes) ≡ some (index_of j.target) =
          lookup-indexes_of e.to nodes ∙ rw j.target_found refl in
        let third = lookup-by_id (source_pin_id e) j.source.output_pins ∙ j.from_found in
        let fourth = lookup-by_id (target_pin_id e) j.target.input_pins ∙ j.to_found in
        rw (first, second, third, fourth, check_edge)
          ((check_pins_iff e j.from j.to).1 (j.types, j.kinds))

  pub check_edges_iff :
      (nodes : Dict (NodePins N)) (es : List WorkflowEdge)
      → (check_edges (indexes_of nodes) es ≡ inr tt) ↔ All (IsJoined nodes) es
  unfolding check_edges
  check_edges_iff nodes [] = (λ h. tt, λ h. refl)
  check_edges_iff nodes (e ∷ es) = (
    λ h.
        >>=_elim (check_edge (indexes_of nodes) e) _ tt h (λ done first rest.
          (check_edge-IsJoined nodes e first, (check_edges_iff nodes es).0 rest)),
    λ h. rw (IsJoined-check_edge nodes e h.0) ((check_edges_iff nodes es).1 h.1),
  )
