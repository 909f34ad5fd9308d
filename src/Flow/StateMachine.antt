-- ===== src/Flow/StateMachine.antt =====
-- The state machine node, crates/nodes-flow/src/state_machine.rs. Rhai, the language of its conditions,
-- is a parameter: what a script's compilation and the conversion of a payload report, and what the
-- evaluation of a script gives and does to the scope, which all conditions of one call share.
use nazh.Base.{
  ℕ, Bool, true, false, ◌||◌, Option, none, some, String, str_eq, List, [], ◌∷◌, ◌++◌, ◌⊎◌, inl,
  inr, lookup, ltb, ◌==◌, if◌then◌else◌,
}
use Prim.Native.String.{◌++◌ as append_text}
use nazh.Base.Results.{◌>>=◌}
use nazh.Json.{JsonNumber, Value, string, as_str}
use nazh.Connections.Types.{DateTime}
pub mod Transform
pub mod Ports
pub mod Choice
pub mod Moves
mod Tests
use nazh.Core.Variables.{VariableError, WorkflowVariables, set}

pub record StateConfig : Type 0 where
  pub name : String
  pub entry_actions : List String
  pub exit_actions : List String

pub record TransitionConfig : Type 0 where
  pub from : String
  pub to : String
  pub when : String
  pub priority : ℕ
  pub action_port : Option String

pub record StateMachineConfig : Type 0 where
  pub initial_state : String
  pub states : List StateConfig
  pub transitions : List TransitionConfig
  pub max_operations : ℕ

-- The timeout rules of the configuration are read by nothing here. The variables, which the source's
-- node shares with the workflow, are an argument of the calls and part of their result.
pub record StateMachineNode : Type 0 where
  pub id : String
  pub config : StateMachineConfig
  pub action_ports : List String

-- The crate rhai: `Scope` holds the variables of a script, `Fault` is the text of an error.
pub record Scripts (N : Type 0) : Type 1 where
  pub Scope : Type 0
  pub Fault : Type 0
  pub compile : String → Option Fault
  pub scope_of : Value N → Fault ⊎ Scope
  pub eval : String → Scope → (Fault ⊎ Bool) × Scope

pub data MachineError (Fault : Type 0) : Type 0 where
  zero_operations variables_missing state_uninitialised state_not_text : MachineError Fault
  script_compile script_runtime payload_conversion : Fault → MachineError Fault
  write_failed : VariableError → MachineError Fault

-- what `transform` returns: the payload for every successor, or for the ports of a transition between
-- two states, with the transition's condition where there is a port
pub data Execution (N : Type 0) : Type 0 where
  broadcast : Value N → Execution N
  route : Value N → String → String → Option String → List String → Execution N

abbrev pub has_port : String → List String → Bool
has_port port [] = false
has_port port (p ∷ ports) = str_eq p port || has_port port ports

-- `if seen.insert(port) { action_ports.push(port) }`: `seen` has the elements of `action_ports`
unfoldable pub add_port : List String → String → List String
add_port ports port = if has_port port ports then ports else ports ++ (port ∷ [])

unfoldable pub add_ports : List String → List String → List String
unfolding add_port
add_ports ports [] = ports
add_ports ports (port ∷ more) = add_ports (add_port ports port) more

unfoldable pub state_ports : List String → List StateConfig → List String
unfolding add_ports
state_ports ports [] = ports
state_ports ports (s ∷ states) =
    state_ports (add_ports (add_ports ports s.entry_actions) s.exit_actions) states

-- the port of a transition, if it has one
abbrev pub own_port : TransitionConfig → List String
own_port t = elim t.action_port [ none ↦ [] | some port ↦ port ∷ [] ]

unfoldable pub transition_ports : List String → List TransitionConfig → List String
unfolding add_ports
transition_ports ports [] = ports
transition_ports ports (t ∷ transitions) =
    transition_ports (add_ports ports (own_port t)) transitions

abbrev pub collect_ports : StateMachineConfig → List String
collect_ports config = transition_ports (state_ports [] config.states) config.transitions

-- `find_state`; `state_map` has each name with the index of its state
unfoldable pub find_state : String → List StateConfig → Option StateConfig
find_state name [] = none
find_state name (s ∷ states) =
    let rest = find_state name states in if str_eq s.name name then some s else rest

-- `sort_by_key` with the reversed priority, which is stable
unfoldable pub insert_by_priority : TransitionConfig → List TransitionConfig → List TransitionConfig
insert_by_priority t [] = t ∷ []
insert_by_priority t (u ∷ sorted) =
    let rest = insert_by_priority t sorted in
    if ltb t.priority u.priority then u ∷ rest else t ∷ u ∷ sorted

unfoldable pub sort_by_priority : List TransitionConfig → List TransitionConfig
unfolding insert_by_priority
sort_by_priority [] = []
sort_by_priority (t ∷ transitions) = insert_by_priority t (sort_by_priority transitions)

abbrev pub applies : String → TransitionConfig → Bool
applies current t = str_eq t.from "*" || str_eq t.from current

abbrev pub state_variable_key : StateMachineNode → String
state_variable_key node = append_text "_sm." (append_text node.id ".current_state")

module _ {N : Type 0} (R : Scripts N) where
  open R use {Scope, Fault, compile, scope_of, eval}

  -- the conditions are compiled in their order
  unfoldable pub compile_all : List TransitionConfig → MachineError Fault ⊎ Unit {0}
  compile_all [] = inr tt
  compile_all (t ∷ transitions) =
      let rest = compile_all transitions in
      elim (compile t.when) [ some fault ↦ inl (script_compile fault) | none ↦ rest ]

  -- `StateMachineNode::new`
  unfoldable pub new_node : String → StateMachineConfig → MachineError Fault ⊎ StateMachineNode
  unfolding compile_all
  new_node id config =
      if config.max_operations == 0
      then inl zero_operations
      else (compile_all config.transitions >>= λ _.
          inr (record { id = id; config = config; action_ports = collect_ports config }))

  -- the loop of `evaluate_transitions`
  unfoldable pub first_match :
      String → Scope → List TransitionConfig → MachineError Fault ⊎ Option TransitionConfig
  first_match current scope [] = inr none
  first_match current scope (t ∷ transitions) =
      let out = eval t.when scope in
      let skipped = first_match current scope transitions in
      let refused = first_match current out.1 transitions in
      if applies current t
      then elim out.0 [
        | inl fault ↦ inl (script_runtime fault)
        | inr true ↦ inr (some t)
        | inr false ↦ refused
      ]
      else skipped

  unfoldable pub evaluate_transitions :
      StateMachineNode → String → Value N → MachineError Fault ⊎ Option TransitionConfig
  unfolding first_match sort_by_priority
  evaluate_transitions node current payload = elim (scope_of payload) [
    | inl fault ↦ inl (payload_conversion fault)
    | inr scope ↦ first_match current scope (sort_by_priority node.config.transitions)
  ]
