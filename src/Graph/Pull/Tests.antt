-- ===== src/Graph/Pull/Tests.antt =====
-- Runs of the pull of data inputs: a chart reads a constant twice, and a sensor's last value.
use nazh.Base.{
  ℕ, ◌+◌, ◌≡◌, ◌≢◌, ◌∙◌, refl, sym, ap, false, none, some, String, [], ◌∷◌, inl, inr, Dict, lookup,
  insert, arith, All, str_eq, Bool-cases,
}
use mathlib.Core.Path.{subst}
use mathlib.Core.Option.{some_inj}
use nazh.Json.{Value, string, object, field, end, get_field}
use nazh.Core.Pin.{PinType, PinDefinition, PinKind, output, data_kind, block_until_ready}
use nazh.Graph.Types.{WorkflowEdge}
use nazh.Graph.Classify.{ClassifiedEdges}
use nazh.Graph.Topology.{zeros}
use nazh.Graph.Cycle.{
  touch, count_target, push_target, add_names, relax_names, consume, non_exec_cycle,
  detect_non_exec_edge_cycle,
}
use nazh.Graph.Pull.{
  DataInEdge, EdgesByConsumer, build_edges_by_consumer, for_consumer, index_edges,
  data_pin_cache_empty, out_of_fuel, PullNode, PullRequest, request_of, consumer_pin,
  all_untriggered,
}
use nazh.Graph.Pull.Memo.{memo_get, memo_insert}
use nazh.Graph.Pull.Payload.{
  set_field, set_fields, merge_payload, extract_pin, find_output, pick_output,
}
use nazh.Graph.Pull.Cached.{Moment, closed}
use nazh.Graph.Pull.Evaluate.{
  PullState, collect_inputs, merge_inputs, answer, pull_one, pull_inputs,
}
use nazh.Graph.Pull.Reference.{evaluate_inputs}
use nazh.Graph.Pull.Remembered.{IsSame}
use nazh.Graph.Pull.Ends.{pull_inputs_terminates}
use nazh.Graph.Pull.Agrees.{IsShaped, pull_inputs-IsSame}
use nazh.Graph.Pull.Forgetful.{repeated_pull_fails}
mod Echo

abbrev pub out_pin : String → PinKind → PinDefinition Unit
out_pin name pin_kind = record {
  id = name;
  label = name;
  pin_type = PinType.json;
  direction = output;
  required = false;
  kind = pin_kind;
  description = none;
  empty_policy = block_until_ready;
  block_timeout_ms = none;
  ttl_ms = none;
}

-- a pure node with one output pin and the given result
abbrev constant : Value Unit → PullNode Unit
constant v = record {
  input_pins = [];
  output_pins = out_pin "out" data_kind ∷ [];
  transform = λ trace_id payload. inr (v ∷ []);
}

abbrev pub chart_edge : String → String → WorkflowEdge
chart_edge source pin = record {
  from = source;
  to = "chart";
  source_port_id = none;
  target_port_id = some pin;
  backpressure_policy = none;
}

abbrev chart_edges : ClassifiedEdges
chart_edges = record {
  exec_edges = [];
  data_edges = chart_edge "pi" "low" ∷ chart_edge "pi" "high" ∷ [];
  reactive_edges = [];
}

abbrev nodes_with : Value Unit → Dict (PullNode Unit)
nodes_with v = ("pi", constant v) ∷ []

abbrev shaped_output : Value Unit
shaped_output = object (field "out" (string "3.14") end)

abbrev pub quiet : Moment Unit
quiet = record { caches = []; now = 0; borrowed = none; borrowed_at = 0; wakeup = closed }

abbrev pub fresh : PullState Unit
fresh = record { memo = []; tick = 0 }

abbrev by_chart : EdgesByConsumer
by_chart = build_edges_by_consumer (chart_edges.data_edges)

chart_pulled :
    (pull_inputs
      (nodes_with shaped_output)
      by_chart
      (λ _. 0)
      "t"
      (λ _. quiet)
      3
      "chart"
      []
      (object end)
      fresh).0
    ≡ inr (object (field "low" (string "3.14") (field "high" (string "3.14") end)))
unfolding index_edges merge_inputs collect_inputs pull_one answer memo_get memo_insert set_field
    set_fields merge_payload extract_pin get_field find_output pick_output all_untriggered
    request_of consumer_pin lookup insert
chart_pulled = refl

-- a plain text as output: the first read of the chart succeeds, the second finds no pin
chart_refused :
    (pull_inputs
      (nodes_with (string "3.14"))
      by_chart
      (λ _. 0)
      "t"
      (λ _. quiet)
      3
      "chart"
      []
      (object end)
      fresh).0
    ≡ inl (data_pin_cache_empty "pi" "out")
unfolding index_edges merge_inputs collect_inputs pull_one answer memo_get memo_insert set_field
    set_fields merge_payload extract_pin get_field find_output pick_output all_untriggered
    request_of consumer_pin lookup insert
chart_refused = refl

chart_acyclic : detect_non_exec_edge_cycle chart_edges ≡ inr tt
unfolding detect_non_exec_edge_cycle non_exec_cycle add_names touch count_target push_target consume
    relax_names zeros lookup insert
chart_acyclic = refl

pull_inputs_terminates_example :
    (enough : ℕ) × ((extra : ℕ) (s : PullState Unit)
      → (pull_inputs
          (nodes_with shaped_output)
          by_chart
          (λ _. 0)
          "t"
          (λ _. quiet)
          (enough + extra)
          "chart"
          []
          (object end)
          s).0
        ≢ inl out_of_fuel)
pull_inputs_terminates_example =
    pull_inputs_terminates chart_edges (nodes_with shaped_output) (λ _. 0) "t" (λ _. quiet) "chart"
      [] (object end) chart_acyclic

abbrev entry_at : String → DataInEdge
entry_at pin = record {
  consumer_input_pin_id = pin;
  upstream_node_id = "pi";
  upstream_output_pin_id = "out";
}

abbrev pi_request : PullRequest Unit
pi_request = record { empty_policy = block_until_ready; block_timeout_ms = none; ttl_ms = none }

repeated_pull_fails_example :
    let pull =
      pull_one
        (nodes_with (string "3.14"))
        by_chart
        (λ _. 0)
        "t"
        (λ _. quiet)
        3
        (entry_at "low")
        pi_request in
    ((v : Value Unit) × ((pull fresh).0 ≡ inr v))
    × ((pull (pull fresh).1).0 ≡ inl (data_pin_cache_empty "pi" "out"))
unfolding lookup all_untriggered index_edges insert extract_pin memo_get
repeated_pull_fails_example =
    repeated_pull_fails (nodes_with (string "3.14")) by_chart (λ _. 0) "t" (λ _. quiet) 2
      (entry_at "low") pi_request fresh (constant (string "3.14")) (string "3.14") [] refl refl refl
      refl refl refl
