-- ===== src/Flow/StateMachine/Tests.antt =====
-- A machine of two states that a payload starts; its scripts are the texts "true" and "false".
use nazh.Base.{◌≡◌, refl, none, some, str_eq, [], ◌∷◌, inr, lookup}
use nazh.Json.{null, string}
use nazh.Core.Pin.{PinType, pin_type_matches_value}
use nazh.Core.Variables.{WorkflowVariables, new_variable}
use nazh.Core.Variables.Tests.{zero_number}
use nazh.Flow.StateMachine.{
  TransitionConfig, StateMachineConfig, StateMachineNode, Scripts, collect_ports, find_state,
  new_node, sort_by_priority, evaluate_transitions, route,
}
use nazh.Flow.StateMachine.Transform.{transform}
use nazh.Flow.StateMachine.Choice.{Descending, of_priority, IsFirstMatch, chosen-IsFirstMatch}
use nazh.Flow.StateMachine.Moves.{Moved, transform-Moved}

abbrev literals : Scripts Unit
literals = record {
  Scope = Unit;
  Fault = Unit;
  compile = λ when. none;
  scope_of = λ payload. inr tt;
  eval = λ when scope. (inr (str_eq when "true"), scope);
}

abbrev go : TransitionConfig
go = record {
  from = "idle";
  to = "busy";
  when = "true";
  priority = 1;
  action_port = some "started";
}

abbrev stop : TransitionConfig
stop = record { from = "*"; to = "idle"; when = "false"; priority = 5; action_port = none }

abbrev config : StateMachineConfig
config = record {
  initial_state = "idle";
  states =
      record { name = "idle"; entry_actions = []; exit_actions = "leave" ∷ [] }
      ∷ record { name = "busy"; entry_actions = "enter" ∷ "started" ∷ []; exit_actions = [] }
      ∷ [];
  transitions = go ∷ stop ∷ [];
  max_operations = 1000;
}

abbrev node : StateMachineNode
node = record { id = "m"; config = config; action_ports = collect_ports config }

abbrev variables : WorkflowVariables Unit
variables = record {
  inner =
      (
        "_sm.m.current_state",
        new_variable zero_number
            (record { variable_type = PinType.string; initial = string "idle" }) 1,
      )
      ∷ [];
  event_sink = none;
  sent = [];
}

node_made : new_node literals "m" config ≡ inr node
unfolding new_node
node_made = refl

moves :
    (transform zero_number literals node null 7 (some variables)).0
    ≡ inr (route null "idle" "busy" (some "true") ("leave" ∷ "started" ∷ "enter" ∷ "started" ∷ []))
unfolding transform lookup pin_type_matches_value find_state
moves = refl

go_chosen : evaluate_transitions literals node "idle" null ≡ inr (some go)
unfolding evaluate_transitions
go_chosen = refl

chosen-IsFirstMatch_example :
    let sorted = sort_by_priority node.config.transitions in
    (scope : Unit) × (literals.scope_of null ≡ inr scope)
    × (of_priority 5 sorted ≡ of_priority 5 node.config.transitions)
    × Descending sorted
    × IsFirstMatch literals "idle" scope sorted go
chosen-IsFirstMatch_example = chosen-IsFirstMatch literals node "idle" null go 5 go_chosen

transform-Moved_example :
    Moved zero_number literals node null 7
      (some variables)
      (transform zero_number literals node null 7 (some variables))
transform-Moved_example =
    transform-Moved zero_number literals "m" config node null 7 (some variables) node_made
