-- ===== src/Graph/Pull.antt =====
-- crates/graph/src/pull: the values that a node reads from its data inputs. A pure node is evaluated when it
-- is asked, with a memo (memo.rs); the last output of any other node is read from its cache.
use nazh.Base.{
  ℕ, zero, suc, ◌+◌, Bool, true, false, not, ◌&&◌, Option, none, some, String, str_eq, List, [],
  ◌∷◌, ◌++◌, ◌⊎◌, inl, inr, ◌==◌, if◌then◌else◌, Dict, lookup, insert,
}
use nazh.Json.{Value, null, object, Fields, end, field, get_field}
use nazh.Core.Pin.{
  PinKind, exec, data_kind, reactive, PinDefinition, EmptyPolicy, block_until_ready, skip,
  default_value,
}
use nazh.Core.Cache.{CachedOutput, OutputCache, expired, read}
use nazh.Connections.Types.{DateTime}
use nazh.Graph.Types.{WorkflowEdge}
use nazh.Graph.Pins.{source_pin_id, target_pin_id}
pub mod Memo
pub mod Payload
pub mod Cached
pub mod Evaluate
pub mod Descends
pub mod Ends
pub mod Reference
pub mod Remembered
pub mod Collected
pub mod Agrees
pub mod Forgetful
mod Tests

-- index.rs
pub record DataInEdge : Type 0 where
  pub consumer_input_pin_id : String
  pub upstream_node_id : String
  pub upstream_output_pin_id : String

abbrev pub EdgesByConsumer : Type 0
EdgesByConsumer = Dict (List DataInEdge)

abbrev pub for_consumer : String → EdgesByConsumer → List DataInEdge
for_consumer consumer_node_id by_consumer = elim (lookup consumer_node_id by_consumer) [
  | none ↦ []
  | some entries ↦ entries
]

abbrev pub entry_of : WorkflowEdge → DataInEdge
entry_of e = record {
  consumer_input_pin_id = target_pin_id e;
  upstream_node_id = e.from;
  upstream_output_pin_id = source_pin_id e;
}

unfoldable pub index_edges : List WorkflowEdge → EdgesByConsumer → EdgesByConsumer
index_edges [] by_consumer = by_consumer
index_edges (e ∷ es) by_consumer =
    index_edges es (insert e.to (for_consumer e.to by_consumer ++ entry_of e ∷ []) by_consumer)

abbrev pub build_edges_by_consumer : List WorkflowEdge → EdgesByConsumer
build_edges_by_consumer data_edges = index_edges data_edges []

-- the variants of `EngineError` that a pull ends with; a transform's own error is a text, and `out_of_fuel` is
-- no error of the code
pub data PullError : Type 0 where
  missing_node missing_cache : String → PullError
  data_pin_cache_empty : String → String → PullError
  data_pin_pull_timeout : String → String → ℕ → PullError
  transform_failed : String → PullError
  out_of_fuel : PullError

abbrev pub default_block_timeout_ms : ℕ
default_block_timeout_ms = 5000

abbrev is_triggered : PinKind → Bool
is_triggered exec = true
is_triggered data_kind = false
is_triggered reactive = true

-- What is used of a node. `transform` gives the payloads of its outputs, or the text of its error.
pub record PullNode (N : Type 0) : Type 0 where
  pub input_pins : List (PinDefinition N)
  pub output_pins : List (PinDefinition N)
  pub transform : String → Value N → String ⊎ List (Value N)

-- what the pin of the consumer says of the read
pub record PullRequest (N : Type 0) : Type 0 where
  pub empty_policy : EmptyPolicy N
  pub block_timeout_ms : Option ℕ
  pub ttl_ms : Option ℕ

module _ {N : Type 0} where
  unfoldable pub all_untriggered : List (PinDefinition N) → Bool
  all_untriggered [] = true
  all_untriggered (p ∷ ps) = not (is_triggered p.kind) && all_untriggered ps

  abbrev pub is_pure_form : PullNode N → Bool
  is_pure_form node = all_untriggered node.input_pins && all_untriggered node.output_pins

  -- the entry of `consumer_pin_map`: the last pin with the id
  unfoldable pub consumer_pin : String → List (PinDefinition N) → Option (PinDefinition N)
  consumer_pin id [] = none
  consumer_pin id (p ∷ ps) = elim (consumer_pin id ps) [
    | some q ↦ some q
    | none ↦ if str_eq p.id id then some p else none
  ]

  unfoldable pub request_of : String → List (PinDefinition N) → PullRequest N
  request_of id pins = elim (consumer_pin id pins) [
    | some p ↦ record {
      empty_policy = p.empty_policy;
      block_timeout_ms = p.block_timeout_ms;
      ttl_ms = p.ttl_ms;
    }
    | none ↦ record { empty_policy = block_until_ready; block_timeout_ms = none; ttl_ms = none }
  ]
