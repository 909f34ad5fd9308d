-- ===== src/Flow/StateMachine/Ports.antt =====
-- The ports that a transition routes to are output pins of the node.
use nazh.Base.{
  ◌≡◌, refl, sym, ◌∙◌, true, some, String, str_eq, List, [], ◌∷◌, ◌++◌, inl, inr, All, All-append,
  arith, eq_iff, Bool-cases, Option-cases, if_elim,
}
use mathlib.Core.Path.{subst}
use mathlib.Core.Option.{some_inj}
use nazh.Flow.StateMachine.{
  StateConfig, TransitionConfig, has_port, add_port, add_ports, state_ports, transition_ports,
  collect_ports, find_state, own_port, StateMachineNode,
}
use nazh.Flow.StateMachine.Transform.{exit_ports, entry_ports}

abbrev pub Within : List String → List String → Type 0
Within ports pins = All (λ port. has_port port pins ≡ true) ports

has_port-append :
    (port other : String) (ports : List String)
    → has_port port ports ≡ true
    → has_port port (ports ++ (other ∷ [])) ≡ true
has_port-append port other [] h = absurd (ground arith)
has_port-append port other (p ∷ ports) h = ground (arith, h, has_port-append port other ports)

has_port-last : (port : String) (ports : List String) → has_port port (ports ++ (port ∷ [])) ≡ true
has_port-last port [] = ground (arith, eq_iff port port)
has_port-last port (p ∷ ports) = ground (arith, has_port-last port ports)

add_port-keeps :
    (ports : List String) (port other : String)
    → has_port other ports ≡ true
    → has_port other (add_port ports port) ≡ true
unfolding add_port
add_port-keeps ports port other h =
    if_elim (λ pins. has_port other pins ≡ true) (has_port port ports) (λ _. h)
      (λ _. has_port-append other port ports h)

add_port-has : (ports : List String) (port : String) → has_port port (add_port ports port) ≡ true
unfolding add_port
add_port-has ports port =
    if_elim (λ pins. has_port port pins ≡ true) (has_port port ports) (λ there. there)
      (λ _. has_port-last port ports)

add_ports-keeps :
    (ports more : List String) (other : String)
    → has_port other ports ≡ true
    → has_port other (add_ports ports more) ≡ true
unfolding add_ports
add_ports-keeps ports [] other h = h
add_ports-keeps ports (port ∷ more) other h =
    add_ports-keeps (add_port ports port) more other (add_port-keeps ports port other h)

add_ports-has : (ports more : List String) → Within more (add_ports ports more)
unfolding add_ports
add_ports-has ports [] = tt
add_ports-has ports (port ∷ more) = (
  add_ports-keeps (add_port ports port) more port (add_port-has ports port),
  add_ports-has (add_port ports port) more,
)

All-mono :
    (pins more : List String) (ports : List String)
    → ((port : String) → has_port port pins ≡ true → has_port port more ≡ true)
    → Within ports pins
    → Within ports more
All-mono pins more [] keeps h = tt
All-mono pins more (port ∷ ports) keeps h = (keeps port h.0, All-mono pins more ports keeps h.1)

state_ports-keeps :
    (ports : List String) (states : List StateConfig) (other : String)
    → has_port other ports ≡ true
    → has_port other (state_ports ports states) ≡ true
unfolding state_ports
state_ports-keeps ports [] other h = h
state_ports-keeps ports (s ∷ states) other h =
    state_ports-keeps (add_ports (add_ports ports s.entry_actions) s.exit_actions) states other (
      add_ports-keeps (add_ports ports s.entry_actions) s.exit_actions other
        (add_ports-keeps ports s.entry_actions other h))

-- that the actions of every state are among some pins
abbrev HasActions : List String → StateConfig → Type 0
HasActions pins s = Within s.entry_actions pins × Within s.exit_actions pins

state_ports-has :
    (ports : List String) (states : List StateConfig)
    → All (HasActions (state_ports ports states)) states
unfolding state_ports
state_ports-has ports [] = tt
state_ports-has ports (s ∷ states) =
    let entered = add_ports ports s.entry_actions in
    let left = add_ports entered s.exit_actions in
    (
      (
        All-mono entered (state_ports left states) s.entry_actions
            (λ p h. state_ports-keeps left states p (add_ports-keeps entered s.exit_actions p h))
            (add_ports-has ports s.entry_actions),
        All-mono left (state_ports left states) s.exit_actions
            (λ p h. state_ports-keeps left states p h) (add_ports-has entered s.exit_actions),
      ),
      state_ports-has left states,
    )

transition_ports-keeps :
    (ports : List String) (transitions : List TransitionConfig) (other : String)
    → has_port other ports ≡ true
    → has_port other (transition_ports ports transitions) ≡ true
unfolding transition_ports
transition_ports-keeps ports [] other h = h
transition_ports-keeps ports (t ∷ transitions) other h =
    transition_ports-keeps (add_ports ports (own_port t)) transitions other
      (add_ports-keeps ports (own_port t) other h)

pub transition_ports-has :
    (ports : List String) (transitions : List TransitionConfig)
    → All (λ t. Within (own_port t) (transition_ports ports transitions)) transitions
unfolding transition_ports
transition_ports-has ports [] = tt
transition_ports-has ports (t ∷ transitions) =
    let taken = add_ports ports (own_port t) in
    (
      All-mono taken (transition_ports taken transitions) (own_port t)
          (λ p h. transition_ports-keeps taken transitions p h) (add_ports-has ports (own_port t)),
      transition_ports-has taken transitions,
    )

-- the state that a name stands for is one of the states
found_among :
    (P : StateConfig → Type 0) (name : String) (states : List StateConfig) (s : StateConfig)
    → All P states
    → find_state name states ≡ some s
    → P s
unfolding find_state
found_among P name [] s all h = absurd (ground arith)
found_among P name (first ∷ states) s all h = elim (Bool-cases (str_eq first.name name)) [
  | inl same ↦
      let found : some first ≡ some s =
        (let r : find_state name (first ∷ states) ≡ some first = rw (same, find_state) refl in
          sym r ∙ h) in
      subst P (some_inj.0 found) all.0
  | inr other ↦ found_among P name states s all.1 (
      let r : find_state name (first ∷ states) ≡ find_state name states =
        rw (other, find_state) refl in
      sym r ∙ h)
]

-- the ports of a transition between two states are among the collected ones
pub route-Within :
    (node : StateMachineNode) (t : TransitionConfig) (current : String)
    → Within (own_port t) (collect_ports node.config)
    → Within
        (exit_ports node current ++ own_port t ++ entry_ports node t.to)
        (collect_ports node.config)
route-Within node t current own =
    let config = node.config in
    let pins = collect_ports config in
    let states = state_ports [] config.states in
    let among : All (HasActions states) config.states = state_ports-has [] config.states in
    let up : (ports : List String) → Within ports states → Within ports pins = λ ports h.
      All-mono states pins ports (λ p e. transition_ports-keeps states config.transitions p e) h in
    let leaving : Within (exit_ports node current) pins =
      elim (Option-cases (find_state current config.states)) [
        | inl e ↦ rw (e, exit_ports) tt
        | inr (s, e) ↦
            rw (e, exit_ports)
              (up s.exit_actions
                (found_among (HasActions states) current config.states s among e).1)
      ] in
    let entering : Within (entry_ports node t.to) pins =
      elim (Option-cases (find_state t.to config.states)) [
        | inl e ↦ rw (e, entry_ports) tt
        | inr (s, e) ↦
            rw (e, entry_ports)
              (up s.entry_actions (found_among (HasActions states) t.to config.states s among e).0)
      ] in
    All-append (λ p. has_port p pins ≡ true) (exit_ports node current ++ own_port t)
      (entry_ports node t.to)
      (All-append (λ p. has_port p pins ≡ true) (exit_ports node current) (own_port t) leaving own)
      entering
