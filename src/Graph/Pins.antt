-- ===== src/Graph/Pins.antt =====
-- crates/graph/src/pin_validator.rs: the check of the pins that the edges join, before a node is started.
-- `nodes` maps a node's id to its pins. The entries of a `HashMap` stand in the order of their insertion.
use nazh.Base.{
  Bool, true, false, not, ◌||◌, ◌&&◌, Option, none, some, String, List, [], ◌∷◌, ◌⊎◌, inl, inr,
  str_eq, if◌then◌else◌, Dict, lookup, insert, contains_key,
}
use nazh.Base.Results.{◌>>=◌}
use nazh.Core.Pin.{
  PinType, PinKind, exec, data_kind, reactive, PinDefinition, PinDirection, input, output,
  types_compatible, kinds_compatible,
}
use nazh.Graph.Types.{WorkflowEdge, default_input_pin_id, default_output_pin_id}
pub mod Indexed
pub mod Joined
pub mod Inputs
pub mod Compatible
mod Tests

-- what `NodeTrait::input_pins` and `output_pins` of a node return
pub record NodePins (N : Type 0) : Type 0 where
  pub input_pins : List (PinDefinition N)
  pub output_pins : List (PinDefinition N)

-- The variants of `EngineError` of the check, with the values that their texts are made of: a node and
-- its pin for "node.pin".
pub data PinError : Type 0 where
  duplicate_pin_id unknown_pin : String → String → PinDirection → PinError
  missing_source missing_target : String → PinError
  incompatible_pin_types : String → String → String → String → PinType → PinType → PinError
  incompatible_pin_kinds : String → String → String → String → PinKind → PinKind → PinError
  uncovered_input reserved_pin_id : String → String → PinError

pub record NodePinIndex (N : Type 0) : Type 0 where
  pub inputs : Dict (PinDefinition N)
  pub outputs : Dict (PinDefinition N)

-- `ok_or_else`
abbrev pub ok_or : {A : Type 0} → PinError → Option A → PinError ⊎ A
ok_or error none = inl error
ok_or error (some a) = inr a

abbrev pub source_pin_id : WorkflowEdge → String
source_pin_id e = elim e.source_port_id [ none ↦ default_output_pin_id | some id ↦ id ]

abbrev pub target_pin_id : WorkflowEdge → String
target_pin_id e = elim e.target_port_id [ none ↦ default_input_pin_id | some id ↦ id ]

-- the pairs of `covered_inputs`
unfoldable pub is_covered : String → String → List WorkflowEdge → Bool
is_covered node pin [] = false
is_covered node pin (e ∷ es) =
    str_eq e.to node && str_eq (target_pin_id e) pin || is_covered node pin es

abbrev pub is_exec : PinKind → Bool
is_exec exec = true
is_exec data_kind = false
is_exec reactive = false

module _ {N : Type 0} where
  -- one of the two loops of `build_pin_index`
  unfoldable pub index_pins :
      String
      → PinDirection
      → List (PinDefinition N)
      → Dict (PinDefinition N)
      → PinError ⊎ Dict (PinDefinition N)
  index_pins node direction [] index = inr index
  index_pins node direction (p ∷ ps) index =
      let rest = index_pins node direction ps (insert p.id p index) in
      if contains_key p.id index then inl (duplicate_pin_id node p.id direction) else rest

  unfoldable pub build_pin_index : String → NodePins N → PinError ⊎ NodePinIndex N
  build_pin_index node pins = do
    inputs ← index_pins node input pins.input_pins []
    outputs ← index_pins node output pins.output_pins []
    inr (record { inputs = inputs; outputs = outputs })

  -- step 1
  unfoldable pub build_indexes : Dict (NodePins N) → PinError ⊎ Dict (NodePinIndex N)
  build_indexes [] = inr []
  build_indexes ((id, pins) ∷ nodes) = do
    index ← build_pin_index id pins
    indexes ← build_indexes nodes
    inr ((id, index) ∷ indexes)

  -- the two tests of the pins that an edge joins
  unfoldable pub check_pins : WorkflowEdge → PinDefinition N → PinDefinition N → PinError ⊎ Unit {0}
  check_pins e from to =
      if not (types_compatible from.pin_type to.pin_type)
      then inl (incompatible_pin_types e.from from.id e.to to.id from.pin_type to.pin_type)
      else if not (kinds_compatible from.kind to.kind)
      then inl (incompatible_pin_kinds e.from from.id e.to to.id from.kind to.kind)
      else inr tt

  -- the body of the loop of step 2
  unfoldable pub check_edge : Dict (NodePinIndex N) → WorkflowEdge → PinError ⊎ Unit {0}
  check_edge indexes e = do
    from_index ← ok_or (missing_source e.from) (lookup e.from indexes)
    to_index ← ok_or (missing_target e.to) (lookup e.to indexes)
    from_pin ←
        ok_or (unknown_pin e.from (source_pin_id e) output)
          (lookup (source_pin_id e) from_index.outputs)
    to_pin ←
        ok_or (unknown_pin e.to (target_pin_id e) input) (lookup (target_pin_id e) to_index.inputs)
    check_pins e from_pin to_pin

  unfoldable pub check_edges : Dict (NodePinIndex N) → List WorkflowEdge → PinError ⊎ Unit {0}
  check_edges indexes [] = inr tt
  check_edges indexes (e ∷ es) = check_edge indexes e >>= λ _. check_edges indexes es

  -- the inner loop of step 3
  unfoldable pub check_required :
      List WorkflowEdge → String → Dict (PinDefinition N) → PinError ⊎ Unit {0}
  check_required edges node [] = inr tt
  check_required edges node ((id, pin) ∷ pins) =
      let rest = check_required edges node pins in
      if not pin.required
      then rest
      else if str_eq id default_input_pin_id
      then rest
      else if is_covered node id edges
      then rest
      else inl (uncovered_input node id)

  -- the inner loop of step 4
  unfoldable pub check_reserved : String → Dict (PinDefinition N) → PinError ⊎ Unit {0}
  check_reserved node [] = inr tt
  check_reserved node ((id, pin) ∷ pins) =
      let rest = check_reserved node pins in
      if not (is_exec pin.kind) && str_eq id default_input_pin_id
      then inl (reserved_pin_id node id)
      else rest

  -- the loops of steps 3 and 4 over the indexes
  unfoldable pub check_inputs :
      (String → Dict (PinDefinition N) → PinError ⊎ Unit {0})
      → Dict (NodePinIndex N)
      → PinError ⊎ Unit {0}
  check_inputs check [] = inr tt
  check_inputs check ((id, index) ∷ indexes) =
      check id index.inputs >>= λ _. check_inputs check indexes

  unfoldable pub validate_pin_compatibility :
      Dict (NodePins N) → List WorkflowEdge → PinError ⊎ Unit {0}
  validate_pin_compatibility nodes edges = do
    indexes ← build_indexes nodes
    check_edges indexes edges >>= λ _.
        check_inputs (check_required edges) indexes >>= λ _. check_inputs check_reserved indexes
