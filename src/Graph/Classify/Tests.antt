-- ===== src/Graph/Classify/Tests.antt =====
-- Runs of the classification of edges: a timer with an exec and a data output.
use nazh.Base.{◌≡◌, refl, true, Option, none, some, List, [], ◌∷◌, inr, String, Dict, lookup}
use nazh.Core.Pin.{PinType, PinKind, exec, data_kind, PinDefinition, output, block_until_ready}
use nazh.Graph.Types.{WorkflowEdge}
use nazh.Graph.Classify.{ClassifiedEdges, find_pin, source_kind, classify_edges}
use nazh.Graph.Classify.Split.{class_of, of_kind, classify_edges-of_kind}

abbrev output_pin : String → PinKind → PinDefinition Unit
output_pin name pin_kind = record {
  id = name;
  label = name;
  pin_type = PinType.any;
  direction = output;
  required = true;
  kind = pin_kind;
  description = none;
  empty_policy = block_until_ready;
  block_timeout_ms = none;
  ttl_ms = none;
}

abbrev timer_pins : Dict (List (PinDefinition Unit))
timer_pins = ("timer", output_pin "out" exec ∷ output_pin "latest" data_kind ∷ []) ∷ []

abbrev timer_edge : Option String → WorkflowEdge
timer_edge port = record {
  from = "timer";
  to = "log";
  source_port_id = port;
  target_port_id = none;
  backpressure_policy = none;
}

abbrev timer_edges : List WorkflowEdge
timer_edges = timer_edge (some "latest") ∷ timer_edge none ∷ []

abbrev timer_classes : ClassifiedEdges
timer_classes = record {
  exec_edges = timer_edge none ∷ [];
  data_edges = timer_edge (some "latest") ∷ [];
  reactive_edges = [];
}

timer_classified : classify_edges timer_pins timer_edges ≡ inr timer_classes
unfolding classify_edges source_kind find_pin lookup
timer_classified = refl

classify_edges-of_kind_example :
    class_of data_kind timer_classes ≡ of_kind timer_pins data_kind timer_edges
classify_edges-of_kind_example =
    classify_edges-of_kind timer_pins data_kind timer_edges timer_classes timer_classified
