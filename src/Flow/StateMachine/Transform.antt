-- ===== src/Flow/StateMachine/Transform.antt =====
-- `transform` of the state machine node, crates/nodes-flow/src/state_machine.rs, and the state that it keeps in
-- the workflow variables.
use nazh.Base.{Option, none, some, String, List, [], ◌∷◌, ◌++◌, ◌⊎◌, inl, inr, lookup}
use nazh.Json.{JsonNumber, Value, string, as_str}
use nazh.Connections.Types.{DateTime}
use nazh.Core.Variables.{WorkflowVariables, set}
use nazh.Flow.StateMachine.{
  TransitionConfig, StateMachineNode, Scripts, MachineError, Execution, own_port, find_state,
  state_variable_key, evaluate_transitions, variables_missing, state_uninitialised, state_not_text,
  write_failed, broadcast, route,
}

abbrev pub exit_ports : StateMachineNode → String → List String
exit_ports node state = elim (find_state state node.config.states) [
  | none ↦ []
  | some s ↦ s.exit_actions
]

abbrev pub entry_ports : StateMachineNode → String → List String
entry_ports node state = elim (find_state state node.config.states) [
  | none ↦ []
  | some s ↦ s.entry_actions
]

-- the output of a transition, with or without ports
abbrev pub outputs : {N : Type 0} → Value N → String → TransitionConfig → List String → Execution N
outputs payload from_state t [] = route payload from_state t.to none []
outputs payload from_state t (p ∷ ports) = route payload from_state t.to (some t.when) (p ∷ ports)

module _ (J : JsonNumber) (R : Scripts J.Number) where
  open J use {Number}
  open R use {Scope, Fault}

  unfoldable pub read_current_state :
      StateMachineNode → Option (WorkflowVariables Number) → MachineError Fault ⊎ String
  read_current_state node none = inl variables_missing
  read_current_state node (some variables) =
      elim (lookup (state_variable_key node) variables.inner) [
        | none ↦ inl state_uninitialised
        | some variable ↦ elim (as_str variable.value) [
          | none ↦ inl state_not_text
          | some state ↦ inr state
        ]
      ]

  unfoldable pub write_current_state :
      StateMachineNode
      → String
      → DateTime
      → Option (WorkflowVariables Number)
      → (MachineError Fault ⊎ Unit {0}) × Option (WorkflowVariables Number)
  unfolding set
  write_current_state node state now none = (inl variables_missing, none)
  write_current_state node state now (some variables) =
      let out = set J (state_variable_key node) (string state) none now variables in
      (elim out.0 [ inl e ↦ inl (write_failed e) | inr _ ↦ inr tt ], some out.1)

  -- the part of `transform` behind the choice of a transition
  unfoldable pub fire :
      StateMachineNode
      → Value Number
      → String
      → TransitionConfig
      → DateTime
      → Option (WorkflowVariables Number)
      → (MachineError Fault ⊎ Execution Number) × Option (WorkflowVariables Number)
  unfolding write_current_state
  fire node payload current t now variables =
      let written = write_current_state node t.to now variables in
      (
        elim written.0 [
          | inl e ↦ inl e
          | inr _ ↦ inr (
              outputs payload current t
                (exit_ports node current ++ own_port t ++ entry_ports node t.to))
        ],
        written.1,
      )

  unfoldable pub transform :
      StateMachineNode
      → Value Number
      → DateTime
      → Option (WorkflowVariables Number)
      → (MachineError Fault ⊎ Execution Number) × Option (WorkflowVariables Number)
  unfolding read_current_state evaluate_transitions fire
  transform node payload now variables = elim (read_current_state node variables) [
    | inl e ↦ (inl e, variables)
    | inr current ↦ elim (evaluate_transitions R node current payload) [
      | inl e ↦ (inl e, variables)
      | inr none ↦ (inr (broadcast payload), variables)
      | inr (some t) ↦ fire node payload current t now variables
    ]
  ]
