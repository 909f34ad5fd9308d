-- ===== src/Dsl/StateGraph/Cycles.antt =====
-- The cycles of a state machine's transitions, crates/dsl-compiler/src/safety/state_graph.rs:
-- `find_trigger_cycles`, a search in depth, and the test of a cycle that nothing holds up.
use nazh.Base.{
  ℕ, zero, suc, ◌+◌, Bool, true, false, not, ◌&&◌, ◌||◌, Option, none, some, String, str_eq, List,
  [], ◌∷◌, ◌++◌, if◌then◌else◌, length, Dict, lookup, insert,
}
use nazh.Base.Options.{◌>>=◌}
use nazh.Graph.Topology.{sort}
use nazh.Dsl.StateGraph.{TransitionSpec, contains}
pub mod Linked
pub mod Depth
pub mod Found

abbrev pub successors : Dict (List String) → String → List String
successors adj node = elim (lookup node adj) [ none ↦ [] | some ids ↦ ids ]

-- `adj`
unfoldable pub add_transitions : List TransitionSpec → Dict (List String) → Dict (List String)
add_transitions [] adj = adj
add_transitions (t ∷ transitions) adj =
    let more =
      add_transitions transitions (insert t.from (successors adj t.from ++ t.to ∷ []) adj) in
    let same = add_transitions transitions adj in if not (str_eq t.from "*") then more else same

pub record Search : Type 0 where
  pub visited : List String
  pub in_stack : List String
  pub path : List String
  pub cycles : List (List String)

abbrev pub same_names : List String → List String → Bool
same_names [] [] = true
same_names (x ∷ xs) (y ∷ ys) = str_eq x y && same_names xs ys
same_names _ _ = false

-- `cycles.iter().any(...)`
abbrev pub has_cycle : List String → List (List String) → Bool
has_cycle normalized [] = false
has_cycle normalized (c ∷ cycles) = same_names (sort c) normalized || has_cycle normalized cycles

-- `path[start..]` from the first position of the name, if there is one
unfoldable pub from_name : String → List String → Option (List String)
from_name name [] = none
from_name name (p ∷ path) =
    let rest = from_name name path in if str_eq p name then some (p ∷ path) else rest

unfoldable pub record_cycle : String → Search → Search
record_cycle node s = elim (from_name node s.path) [
  | none ↦ s
  | some cycle ↦
      if not (has_cycle (sort cycle) s.cycles)
      then record s { cycles = s.cycles ++ cycle ∷ [] }
      else s
]

-- `path.pop()`
unfoldable pub pop : List String → List String
pop [] = []
pop (p ∷ []) = []
pop (p ∷ q ∷ path) = p ∷ pop (q ∷ path)

abbrev pub without : String → List String → List String
without name [] = []
without name (s ∷ names) = let rest = without name names in if str_eq s name then rest else s ∷ rest

abbrev pub enter : String → Search → Search
enter node s = record s {
  visited = node ∷ s.visited;
  in_stack = node ∷ s.in_stack;
  path = s.path ++ node ∷ [];
}

abbrev pub leave : String → Search → Search
leave node s = record s { path = pop s.path; in_stack = without node s.in_stack }

-- one call after the other
unfoldable pub search_all : (String → Search → Option Search) → List String → Search → Option Search
search_all search [] s = some s
search_all search (node ∷ nodes) s = search node s >>= λ after. search_all search nodes after

-- at most as deep as the fuel; none if that is not enough
unfoldable pub dfs_find_cycles : ℕ → Dict (List String) → String → Search → Option Search
dfs_find_cycles zero adj node s = none
dfs_find_cycles (suc fuel) adj node s = elim (contains node s.in_stack) [
  | true ↦ some (record_cycle node s)
  | false ↦ elim (contains node s.visited) [
    | true ↦ some s
    | false ↦
        search_all (dfs_find_cycles fuel adj) (successors adj node) (enter node s) >>= λ after.
        some (leave node after)
  ]
]

-- each call but the deepest visits a state or a target that was not visited
abbrev pub find_trigger_cycles : List String → List TransitionSpec → Option (List (List String))
find_trigger_cycles states transitions =
    search_all
      (dfs_find_cycles (suc (length states + length transitions)) (add_transitions transitions []))
      states (record { visited = []; in_stack = []; path = []; cycles = [] })
    >>= λ s. some s.cycles
