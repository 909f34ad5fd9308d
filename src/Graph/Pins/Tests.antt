-- ===== src/Graph/Pins/Tests.antt =====
-- Runs of the pin check: a timer feeds a log node that also reads a sensor's value.
use nazh.Base.{
  ◌≡◌, ◌↔◌, refl, true, Option, none, some, String, List, [], ◌∷◌, inl, inr, Dict, lookup, insert,
  contains_key,
}
use nazh.Core.Pin.{
  PinType, PinKind, exec, data_kind, reactive, PinDefinition, PinDirection, input, output,
  block_until_ready, types_compatible, kinds_compatible,
}
use nazh.Graph.Types.{WorkflowEdge}
use nazh.Graph.Pins.{
  NodePins, incompatible_pin_kinds, uncovered_input, is_covered, index_pins, build_pin_index,
  build_indexes, check_pins, check_edge, check_edges, check_required, check_reserved, check_inputs,
  validate_pin_compatibility,
}
use nazh.Graph.Pins.Compatible.{IsCompatible, accepted_iff_IsCompatible}

abbrev pin : String → PinDirection → PinKind → PinDefinition Unit
pin name way pin_kind = record {
  id = name;
  label = name;
  pin_type = PinType.json;
  direction = way;
  required = true;
  kind = pin_kind;
  description = none;
  empty_policy = block_until_ready;
  block_timeout_ms = none;
  ttl_ms = none;
}

abbrev sensor_nodes : Dict (NodePins Unit)
sensor_nodes =
    ("timer", record { input_pins = []; output_pins = pin "out" output exec ∷ [] })
    ∷ ("sensor", record { input_pins = []; output_pins = pin "latest" output reactive ∷ [] })
    ∷ (
      "log",
      record {
        input_pins = pin "in" input exec ∷ pin "value" input data_kind ∷ [];
        output_pins = [];
      },
    )
    ∷ []

abbrev edge : String → Option String → Option String → WorkflowEdge
edge source port target_port = record {
  from = source;
  to = "log";
  source_port_id = port;
  target_port_id = target_port;
  backpressure_policy = none;
}

abbrev sensor_edges : List WorkflowEdge
sensor_edges = edge "timer" none none ∷ edge "sensor" (some "latest") (some "value") ∷ []

sensor_accepted : validate_pin_compatibility sensor_nodes sensor_edges ≡ inr tt
unfolding validate_pin_compatibility build_indexes build_pin_index index_pins contains_key lookup
    insert check_edges check_edge check_pins check_inputs check_required check_reserved is_covered
    types_compatible kinds_compatible
sensor_accepted = refl

value_uncovered :
    validate_pin_compatibility sensor_nodes (edge "timer" none none ∷ [])
    ≡ inl (uncovered_input "log" "value")
unfolding validate_pin_compatibility build_indexes build_pin_index index_pins contains_key lookup
    insert check_edges check_edge check_pins check_inputs check_required check_reserved is_covered
    types_compatible kinds_compatible
value_uncovered = refl

exec_into_data :
    validate_pin_compatibility sensor_nodes (edge "timer" none (some "value") ∷ [])
    ≡ inl (incompatible_pin_kinds "timer" "out" "log" "value" exec data_kind)
unfolding validate_pin_compatibility build_indexes build_pin_index index_pins contains_key lookup
    insert check_edges check_edge check_pins check_inputs check_required check_reserved is_covered
    types_compatible kinds_compatible
exec_into_data = refl

accepted_iff_IsCompatible_example :
    (validate_pin_compatibility sensor_nodes sensor_edges ≡ inr tt)
    ↔ IsCompatible sensor_nodes sensor_edges
accepted_iff_IsCompatible_example = accepted_iff_IsCompatible sensor_nodes sensor_edges
