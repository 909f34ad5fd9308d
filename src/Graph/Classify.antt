-- ===== src/Graph/Classify.antt =====
-- crates/graph/src/topology/classify.rs: the edges of a workflow by the kind of the pin they leave.
-- `nodes` maps a node's id to what its `output_pins()` returns.
use nazh.Base.{
  ℕ, ◌+◌, ◌≡◌, refl, ◌∙◌, ap, Bool, true, false, Option, none, some, String, List, [], ◌∷◌, ◌++◌,
  ◌⊎◌, inl, inr, str_eq, if◌then◌else◌, Dict, lookup, arith, sum_cases,
}
use nazh.Core.Pin.{PinKind, exec, data_kind, reactive, PinDefinition}
use nazh.Graph.Types.{WorkflowEdge, default_output_pin_id}
pub mod Split
mod Tests

pub data ClassifyError : Type 0 where
  unknown_node : String → ClassifyError
  unknown_pin : String → String → ClassifyError

pub record ClassifiedEdges : Type 0 where
  pub exec_edges : List WorkflowEdge
  pub data_edges : List WorkflowEdge
  pub reactive_edges : List WorkflowEdge

abbrev pub push_by_kind : PinKind → WorkflowEdge → ClassifiedEdges → ClassifiedEdges
push_by_kind exec e c = record c { exec_edges = c.exec_edges ++ e ∷ [] }
push_by_kind data_kind e c = record c { data_edges = c.data_edges ++ e ∷ [] }
push_by_kind reactive e c = record c { reactive_edges = c.reactive_edges ++ e ∷ [] }

module _ {N : Type 0} where
  unfoldable pub find_pin : String → List (PinDefinition N) → Option (PinDefinition N)
  find_pin id [] = none
  find_pin id (p ∷ ps) = let rest = find_pin id ps in if str_eq p.id id then some p else rest

  -- the body of the loop, up to the `match`
  unfoldable pub source_kind :
      Dict (List (PinDefinition N)) → WorkflowEdge → ClassifyError ⊎ PinKind
  source_kind nodes e =
      let pin_id : String = elim e.source_port_id [ none ↦ default_output_pin_id | some id ↦ id ] in
      elim (lookup e.from nodes) [
        | none ↦ inl (unknown_node e.from)
        | some pins ↦ elim (find_pin pin_id pins) [
          | none ↦ inl (unknown_pin e.from pin_id)
          | some p ↦ inr p.kind
        ]
      ]

  unfoldable pub classify_from :
      Dict (List (PinDefinition N))
      → List WorkflowEdge
      → ClassifiedEdges
      → ClassifyError ⊎ ClassifiedEdges
  classify_from nodes [] c = inr c
  classify_from nodes (e ∷ es) c = elim (source_kind nodes e) [
    | inl error ↦ inl error
    | inr kind ↦ classify_from nodes es (push_by_kind kind e c)
  ]

  unfoldable pub classify_edges :
      Dict (List (PinDefinition N)) → List WorkflowEdge → ClassifyError ⊎ ClassifiedEdges
  unfolding classify_from
  classify_edges nodes edges =
      classify_from nodes edges (record { exec_edges = []; data_edges = []; reactive_edges = [] })
