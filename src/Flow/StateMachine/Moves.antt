-- ===== src/Flow/StateMachine/Moves.antt =====
-- What a call of `transform` does to the state of the machine.
use nazh.Base.{
  ◌≡◌, refl, sym, ap, ◌∙◌, Option, none, some, String, List, [], ◌∷◌, ◌++◌, ◌⊎◌, inl, inr, lookup,
  ◌==◌, arith, Bool-cases, Option-cases, sum_cases,
}
use mathlib.Core.Path.{subst}
use nazh.Base.Results.{◌>>=◌, >>=_elim}
use nazh.Json.{JsonNumber, Value, string}
use nazh.Connections.Types.{DateTime}
use nazh.Core.Pin.{pin_type_matches_value}
use nazh.Core.Variables.{
  TypedVariable, VariableError, unknown_variable, variable_type_mismatch, WorkflowVariables, set,
  write,
}
use nazh.Core.Variables.Swaps.{lookup-write}
use nazh.Flow.StateMachine.{
  StateMachineConfig, StateMachineNode, TransitionConfig, Scripts, MachineError, variables_missing,
  write_failed, zero_operations, Execution, broadcast, route, new_node, compile_all, collect_ports,
  state_ports, own_port, state_variable_key, evaluate_transitions,
}
use nazh.Flow.StateMachine.Transform.{
  exit_ports, entry_ports, outputs, read_current_state, write_current_state, fire, transform,
}
use nazh.Flow.StateMachine.Ports.{Within, transition_ports-has, route-Within}
use nazh.Flow.StateMachine.Choice.{chosen_among}

abbrev ports_of : StateMachineNode → String → TransitionConfig → List String
ports_of node current t = exit_ports node current ++ own_port t ++ entry_ports node t.to

outputs-route :
    {N : Type 0} (payload : Value N) (current : String) (t : TransitionConfig) (ports : List String)
    → (matched : Option String) × (outputs payload current t ports
        ≡ route payload current t.to matched ports)
outputs-route payload current t [] = (none, refl)
outputs-route payload current t (p ∷ ports) = (some t.when, refl)

module _ (J : JsonNumber) where
  open J use {Number}

  -- a variable is written, or nothing changes
  set-cases :
      (name : String) (value : Value Number) (by : Option String) (now : DateTime)
      (s : WorkflowVariables Number)
      → ((e : VariableError) × (set J name value by now s ≡ (inl e, s)))
        ⊎ ((v : TypedVariable Number) × (set J name value by now s
              ≡ (inr tt, write J name v value by now s)))
  unfolding set
  set-cases name value by now s = elim (Option-cases (lookup name s.inner)) [
    | inl e ↦ inl (unknown_variable name, rw (e, set) refl)
    | inr (v, e) ↦ elim (Bool-cases (pin_type_matches_value J v.variable_type value)) [
      | inl fits ↦ inr (v, rw (e, set) (rw fits refl))
      | inr misfit ↦ inl (variable_type_mismatch name v.variable_type, rw (e, set) (rw misfit refl))
    ]
  ]

module _ (J : JsonNumber) (R : Scripts J.Number) where
  open J use {Number}
  open R use {Scope, Fault}

  -- the write of a state: it is read back, or nothing has changed
  abbrev Written :
      StateMachineNode
      → String
      → Option (WorkflowVariables Number)
      → (MachineError Fault ⊎ Unit {0}) × Option (WorkflowVariables Number)
      → Type 0
  Written node state before out =
      ((out.0 ≡ inr tt) × (read_current_state J R node out.1 ≡ inr state))
      ⊎ ((e : MachineError Fault) × (out.0 ≡ inl e) × (out.1 ≡ before))

  read_back :
      (node : StateMachineNode) (state : String) (now : DateTime) (v : TypedVariable Number)
      (s : WorkflowVariables Number)
      → read_current_state J R node
          (some (write J (state_variable_key node) v (string state) none now s))
        ≡ inr state
  unfolding read_current_state
  read_back node state now v s =
      rw (lookup-write J (state_variable_key node) v (string state) none now s, read_current_state)
        refl

  write-Written :
      (node : StateMachineNode) (state : String) (now : DateTime)
      (variables : Option (WorkflowVariables Number))
      → Written node state variables (write_current_state J R node state now variables)
  unfolding write_current_state
  write-Written node state now none = inr (variables_missing, refl, refl)
  write-Written node state now (some s) =
      elim (set-cases J (state_variable_key node) (string state) none now s) [
        | inl (e, es) ↦
            let r : write_current_state J R node state now (some s)
                ≡ (inl (write_failed e), some s) =
              rw (es, write_current_state) refl in
            subst (Written node state (some s)) (sym r) (inr (write_failed e, refl, refl))
        | inr (v, es) ↦
            let after = write J (state_variable_key node) v (string state) none now s in
            let r : write_current_state J R node state now (some s) ≡ (inr tt, some after) =
              rw (es, write_current_state) refl in
            subst (Written node state (some s)) (sym r) (inl (refl, read_back node state now v s))
      ]

  -- the machine moves by the chosen transition, to pins of the node
  abbrev pub Moves :
      StateMachineNode
      → Value Number
      → Option (WorkflowVariables Number)
      → (MachineError Fault ⊎ Execution Number) × Option (WorkflowVariables Number)
      → Type 0
  Moves node payload before out =
      (from : String) × (t : TransitionConfig) × (matched : Option String) × (ports : List String)
      × (read_current_state J R node before ≡ inr from)
      × (evaluate_transitions R node from payload ≡ inr (some t))
      × (out.0 ≡ inr (route payload from t.to matched ports))
      × (read_current_state J R node out.1 ≡ inr t.to)
      × Within ports node.action_ports

  -- the error of the reading, of the choice or of the writing of the state
  abbrev pub Fails :
      StateMachineNode
      → Value Number
      → DateTime
      → Option (WorkflowVariables Number)
      → MachineError Fault
      → Type 0
  Fails node payload now before e =
      (read_current_state J R node before ≡ inl e)
      ⊎ ((from : String) × (read_current_state J R node before ≡ inr from)
          × ((evaluate_transitions R node from payload ≡ inl e)
              ⊎ ((t : TransitionConfig) × (evaluate_transitions R node from payload ≡ inr (some t))
                  × ((write_current_state J R node t.to now before).0 ≡ inl e))))

  abbrev pub Moved :
      StateMachineNode
      → Value Number
      → DateTime
      → Option (WorkflowVariables Number)
      → (MachineError Fault ⊎ Execution Number) × Option (WorkflowVariables Number)
      → Type 0
  Moved node payload now before out =
      Moves node payload before out
      ⊎ ((from : String) × (read_current_state J R node before ≡ inr from)
          × (evaluate_transitions R node from payload ≡ inr none)
          × (out ≡ (inr (broadcast payload), before)))
      ⊎ ((e : MachineError Fault) × Fails node payload now before e × (out ≡ (inl e, before)))

  fire-Moved :
      (node : StateMachineNode) (payload : Value Number) (current : String) (t : TransitionConfig)
      (now : DateTime) (variables : Option (WorkflowVariables Number))
      → read_current_state J R node variables ≡ inr current
      → evaluate_transitions R node current payload ≡ inr (some t)
      → Within (ports_of node current t) node.action_ports
      → Moved node payload now variables (fire J R node payload current t now variables)
  unfolding fire
  fire-Moved node payload current t now variables from chosen within =
      elim (write-Written node t.to now variables) [
        | inr (e, failed, same) ↦
            let out : (fire J R node payload current t now variables).0 ≡ inl e =
              rw (failed, fire) refl in
            inr (inr (e, inr (current, from, inr (t, chosen, failed)), λ i. (out i, same i)))
        | inl (done, to) ↦
            let ports = ports_of node current t in
            let (matched, routed) = outputs-route payload current t ports in
            let out : (fire J R node payload current t now variables).0
                ≡ inr (route payload current t.to matched ports) =
              rw (done, fire) (ap inr routed) in
            inl (current, t, matched, ports, from, chosen, out, to, within)
      ]

  -- the output pins of a node that was made from a configuration
  built :
      (id : String) (config : StateMachineConfig) (node : StateMachineNode)
      → new_node R id config ≡ inr node
      → node.action_ports ≡ collect_ports node.config
  unfolding new_node
  built id config node h = elim (Bool-cases (config.max_operations == 0)) [
    | inl none_allowed ↦
        let r : new_node R id config ≡ inl zero_operations = rw (none_allowed, new_node) refl in
        absurd (ground (arith, r, h))
    | inr some_allowed ↦
        let r : new_node R id config ≡ (
            compile_all R config.transitions >>= λ _.
            inr (record { id = id; config = config; action_ports = collect_ports config })) =
          rw (some_allowed, new_node) refl in
        >>=_elim (compile_all R config.transitions) _ node (sym r ∙ h) (λ _ _ made.
          let same : (record { id = id; config = config; action_ports = collect_ports config })
              ≡ node =
            cc in
          subst (λ n. n.action_ports ≡ collect_ports n.config) same refl)
  ]

  chosen-Moved :
      (node : StateMachineNode) (payload : Value Number) (current : String) (now : DateTime)
      (variables : Option (WorkflowVariables Number))
      → node.action_ports ≡ collect_ports node.config
      → read_current_state J R node variables ≡ inr current
      → Moved node payload now variables (transform J R node payload now variables)
  unfolding transform
  chosen-Moved node payload current now variables pins from =
      elim (sum_cases (evaluate_transitions R node current payload)) [
        | inl (e, chosen) ↦
            let r : transform J R node payload now variables ≡ (inl e, variables) =
              rw (from, transform) (rw (chosen) refl) in
            inr (inr (e, inr (current, from, inl chosen), r))
        | inr (none, chosen) ↦
            let r : transform J R node payload now variables
                ≡ (inr (broadcast payload), variables) =
              rw (from, transform) (rw (chosen) refl) in
            inr (inl (current, from, chosen, r))
        | inr (some t, chosen) ↦
            let ports = collect_ports node.config in
            let own : Within (own_port t) ports =
              chosen_among R (λ u. Within (own_port u) ports) node current payload t
                (transition_ports-has (state_ports [] node.config.states) node.config.transitions)
                chosen in
            let within : Within (ports_of node current t) node.action_ports =
              subst (Within (ports_of node current t)) (sym pins)
                (route-Within node t current own) in
            let r : transform J R node payload now variables
                ≡ fire J R node payload current t now variables =
              rw (from, transform) (rw (chosen) refl) in
            subst (Moved node payload now variables) (sym r)
              (fire-Moved node payload current t now variables from chosen within)
      ]

  -- A call on a node that was made from its configuration does one of three things. It moves the machine
  -- by the transition that was chosen for the state it read: the state that is read afterwards is the
  -- transition's target, and the payload is routed to output pins of the node. Or no transition was
  -- chosen: the payload is broadcast and the variables are as before. Or it returns the error of the
  -- reading of the state, of the choice, or of the writing of the target, and the variables are as
  -- before.
  pub transform-Moved :
      (id : String) (config : StateMachineConfig) (node : StateMachineNode) (payload : Value Number)
      (now : DateTime) (variables : Option (WorkflowVariables Number))
      → new_node R id config ≡ inr node
      → Moved node payload now variables (transform J R node payload now variables)
  unfolding transform
  transform-Moved id config node payload now variables made =
      elim (sum_cases (read_current_state J R node variables)) [
        | inl (e, from) ↦ inr (inr (e, inl from, rw (from, transform) refl))
        | inr (current, from) ↦
            chosen-Moved node payload current now variables (built id config node made) from
      ]
