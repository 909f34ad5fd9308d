-- ===== src/Graph/Pull/Reference.antt =====
-- The pull of data inputs without a memo: a pure node is evaluated whenever it is asked.
use nazh.Base.{
  ℕ, zero, suc, ◌+◌, true, false, none, some, String, ◌⊎◌, inl, inr, List, Dict, lookup,
}
use nazh.Json.{Value, object, end}
use nazh.Core.Pin.{PinDefinition}
use nazh.Graph.Pull.{
  DataInEdge, EdgesByConsumer, PullError, missing_node, transform_failed, out_of_fuel, PullNode,
  PullRequest, is_pure_form,
}
use nazh.Graph.Pull.Payload.{pick_output}
use nazh.Graph.Pull.Cached.{Moment, read_upstream}
use nazh.Graph.Pull.Evaluate.{Outcome, pull_data_inputs}

module _ {N : Type 0} (trace_id : String) (entry : DataInEdge) (node : PullNode N) where
  unfoldable pub evaluate : Value N → PullError ⊎ Value N
  evaluate payload = elim (node.transform trace_id payload) [
    | inl error ↦ inl (transform_failed error)
    | inr payloads ↦ pick_output entry.upstream_node_id entry.upstream_output_pin_id payloads
  ]

  abbrev pub evaluate_all : Outcome ℕ (Value N) → Outcome ℕ (Value N)
  evaluate_all (inl error, tick) = (inl error, tick)
  evaluate_all (inr payload, tick) = (evaluate payload, tick)

module _ {N : Type 0} (nodes : Dict (PullNode N)) (edges : EdgesByConsumer) (trace_id : String)
    (world : ℕ → Moment N) where
  -- the state is the number of reads of caches
  unfoldable pub evaluate_one : ℕ → DataInEdge → PullRequest N → ℕ → Outcome ℕ (Value N)
  evaluate_one zero entry request tick = (inl out_of_fuel, tick)
  evaluate_one (suc fuel) entry request tick = elim (lookup entry.upstream_node_id nodes) [
    | none ↦ (inl (missing_node entry.upstream_node_id), tick)
    | some node ↦ elim (is_pure_form node) [
      | true ↦ evaluate_all trace_id entry node (
          pull_data_inputs (evaluate_one fuel) edges entry.upstream_node_id node.input_pins
            (object end) tick)
      | false ↦ (
        read_upstream entry.upstream_node_id entry.upstream_output_pin_id request (world tick),
        tick + 1,
      )
    ]
  ]

  abbrev pub evaluate_inputs :
      ℕ → String → List (PinDefinition N) → Value N → ℕ → Outcome ℕ (Value N)
  evaluate_inputs fuel consumer_node_id pins exec_payload tick =
      pull_data_inputs (evaluate_one fuel) edges consumer_node_id pins exec_payload tick
