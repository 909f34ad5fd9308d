-- ===== src/Graph/Types.antt =====
-- The data of crates/graph/src/types.rs that the topology reads. A node's definition is of the type `N`.
use nazh.Base.{String, Option, List, Dict}

-- crates/core `BackpressurePolicy`
pub data BackpressurePolicy : Type 0 where
  block drop_newest : BackpressurePolicy

pub record WorkflowEdge : Type 0 where
  pub from : String
  pub to : String
  pub source_port_id : Option String
  pub target_port_id : Option String
  pub backpressure_policy : Option BackpressurePolicy

pub record WorkflowTopology : Type 0 where
  pub root_nodes : List String
  pub downstream : Dict (List WorkflowEdge)
  pub deployment_order : List String

-- the texts of `EngineError::InvalidGraph`
pub data GraphError : Type 0 where
  unknown_source unknown_target : String → GraphError
  cyclic no_root value_cyclic : GraphError

-- `DEFAULT_INPUT_PIN_ID` and `DEFAULT_OUTPUT_PIN_ID` of crates/graph/src/lib.rs
abbrev pub default_input_pin_id : String
default_input_pin_id = "in"

abbrev pub default_output_pin_id : String
default_output_pin_id = "out"
