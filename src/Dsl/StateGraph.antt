-- ===== src/Dsl/StateGraph.antt =====
-- The completeness check of a state machine, crates/dsl-compiler/src/safety/state_graph.rs: which states
-- can be reached, and which are warned of. A set of names is the list of its elements.
use nazh.Base.{
  ℕ, zero, suc, Bool, true, false, not, ◌&&◌, ◌||◌, Option, none, some, String, str_eq, List, [],
  ◌∷◌, if◌then◌else◌, length,
}
pub mod Rounds
pub mod Reachable
pub mod Cycles
mod Tests

pub record TransitionSpec : Type 0 where
  pub from : String
  pub to : String
  pub when : String

abbrev pub contains : String → List String → Bool
contains name [] = false
contains name (s ∷ names) = str_eq s name || contains name names

-- the test of the loop in `find_reachable_states`
abbrev pub opens : TransitionSpec → List String → Bool
opens t reachable =
    (str_eq t.from "*" || contains t.from reachable) && not (contains t.to reachable)

-- one round over the transitions: the states that are reachable now, and whether one is new
unfoldable pub round : List TransitionSpec → List String → List String × Bool
round [] reachable = (reachable, false)
round (t ∷ transitions) reachable =
    let grown = round transitions (t.to ∷ reachable) in
    let same = round transitions reachable in if opens t reachable then (grown.0, true) else same

-- the loop, with as many rounds as the fuel allows; none if that is not enough
unfoldable pub rounds : ℕ → List TransitionSpec → List String → Option (List String)
unfolding round
rounds zero transitions reachable = none
rounds (suc fuel) transitions reachable =
    let out = round transitions reachable in
    let rest = rounds fuel transitions out.0 in if out.1 then rest else some out.0

-- every round but the last finds the target of a transition that had none yet
abbrev pub find_reachable_states : List TransitionSpec → String → Option (List String)
find_reachable_states transitions initial =
    rounds (suc (length transitions)) transitions (initial ∷ [])

-- the states that `check_state_machine_completeness` calls unreachable
unfoldable pub not_among : List String → List String → List String
not_among found [] = []
not_among found (name ∷ names) =
    let rest = not_among found names in if contains name found then rest else name ∷ rest

abbrev pub unreachable_warnings : List String → List TransitionSpec → String → Option (List String)
unreachable_warnings states transitions initial = elim (find_reachable_states transitions initial) [
  | none ↦ none
  | some found ↦ some (not_among found states)
]
