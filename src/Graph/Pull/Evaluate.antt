-- ===== src/Graph/Pull/Evaluate.antt =====
-- `pull_one` and `pull_data_inputs` of pull/collector.rs, which call each other.
use nazh.Base.{
  ℕ, zero, suc, ◌+◌, true, false, none, some, String, List, [], ◌∷◌, ◌⊎◌, inl, inr, Dict, lookup,
}
use nazh.Json.{Value, object, Fields, end}
use nazh.Core.Pin.{PinDefinition}
use nazh.Graph.Pull.{
  DataInEdge, EdgesByConsumer, for_consumer, PullError, missing_node, data_pin_cache_empty,
  transform_failed, out_of_fuel, PullNode, PullRequest, is_pure_form, request_of,
}
use nazh.Graph.Pull.Memo.{PureMemo, memo_get, memo_insert}
use nazh.Graph.Pull.Payload.{set_field, merge_payload, extract_pin, pick_output}
use nazh.Graph.Pull.Cached.{Moment, read_upstream}

-- the memo, and the number of reads of caches so far
pub record PullState (N : Type 0) : Type 0 where
  pub memo : PureMemo N
  pub tick : ℕ

abbrev pub Outcome : Type 0 → Type 0 → Type 0
Outcome S A = (PullError ⊎ A) × S

module _ {N : Type 0} {S : Type 0}
    (pull : DataInEdge → PullRequest N → S → Outcome S (Value N)) where
  -- the loop over the entries in `pull_data_inputs`
  unfoldable pub collect_inputs :
      List (PinDefinition N) → List DataInEdge → Fields N → S → Outcome S (Fields N)
  collect_inputs pins [] values s = (inr values, s)
  collect_inputs pins (entry ∷ entries) values s =
      let (pulled, after) = pull entry (request_of entry.consumer_input_pin_id pins) s in
      elim pulled [
        | inl error ↦ (inl error, after)
        | inr v ↦ collect_inputs pins entries (set_field entry.consumer_input_pin_id v values) after
      ]

  unfoldable pub merge_inputs :
      List (PinDefinition N) → List DataInEdge → Value N → S → Outcome S (Value N)
  merge_inputs pins [] exec_payload s = (inr exec_payload, s)
  merge_inputs pins (entry ∷ entries) exec_payload s =
      let (collected, after) = collect_inputs pins (entry ∷ entries) end s in
      elim collected [
        | inl error ↦ (inl error, after)
        | inr values ↦ (inr (merge_payload exec_payload values), after)
      ]

  abbrev pub pull_data_inputs :
      EdgesByConsumer → String → List (PinDefinition N) → Value N → S → Outcome S (Value N)
  pull_data_inputs edges consumer_node_id pins exec_payload s =
      merge_inputs pins (for_consumer consumer_node_id edges) exec_payload s

-- `input_hash` stands for `DefaultHasher` on the text of serde_json.
module _ {N : Type 0} (input_hash : Value N → ℕ) (trace_id : String) where
  abbrev pub remember : String → ℕ → List (Value N) → PullState N → PullState N
  remember node_id hash [] s = s
  remember node_id hash (first ∷ _) s = record s {
    memo =
        memo_insert
          (record { node_id = node_id; trace_id = trace_id; input_hash = hash; payload = first })
          s.memo;
  }

  -- the branch of `pull_one` for a pure node, from its collected inputs on
  unfoldable pub answer :
      DataInEdge → PullNode N → Value N → PullState N → Outcome (PullState N) (Value N)
  answer entry node payload s =
      let id = entry.upstream_node_id in
      let pin = entry.upstream_output_pin_id in
      elim (memo_get id trace_id (input_hash payload) s.memo) [
        | some cached ↦ elim (extract_pin cached pin) [
          | some v ↦ (inr v, s)
          | none ↦ (inl (data_pin_cache_empty id pin), s)
        ]
        | none ↦ elim (node.transform trace_id payload) [
          | inl error ↦ (inl (transform_failed error), s)
          | inr payloads ↦
              (pick_output id pin payloads, remember id (input_hash payload) payloads s)
        ]
      ]

  abbrev pub answer_all :
      DataInEdge → PullNode N → Outcome (PullState N) (Value N) → Outcome (PullState N) (Value N)
  answer_all entry node (inl error, s) = (inl error, s)
  answer_all entry node (inr payload, s) = answer entry node payload s

-- `world` stands for what each read of a cache meets.
module _ {N : Type 0} (nodes : Dict (PullNode N)) (edges : EdgesByConsumer)
    (input_hash : Value N → ℕ) (trace_id : String) (world : ℕ → Moment N) where
  unfoldable pub pull_one :
      ℕ → DataInEdge → PullRequest N → PullState N → Outcome (PullState N) (Value N)
  pull_one zero entry request s = (inl out_of_fuel, s)
  pull_one (suc fuel) entry request s = elim (lookup entry.upstream_node_id nodes) [
    | none ↦ (inl (missing_node entry.upstream_node_id), s)
    | some node ↦ elim (is_pure_form node) [
      | true ↦ answer_all input_hash trace_id entry node (
          pull_data_inputs (pull_one fuel) edges entry.upstream_node_id node.input_pins (object end)
            s)
      | false ↦ (
        read_upstream entry.upstream_node_id entry.upstream_output_pin_id request (world s.tick),
        record s { tick = s.tick + 1 },
      )
    ]
  ]

  -- the call of the runner, for a node that it is about to run
  abbrev pub pull_inputs :
      ℕ → String → List (PinDefinition N) → Value N → PullState N → Outcome (PullState N) (Value N)
  pull_inputs fuel consumer_node_id pins exec_payload s =
      pull_data_inputs (pull_one fuel) edges consumer_node_id pins exec_payload s
