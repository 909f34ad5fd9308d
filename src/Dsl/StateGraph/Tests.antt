-- ===== src/Dsl/StateGraph/Tests.antt =====
-- A machine of three states, one of which has only itself as a predecessor.
use nazh.Base.{◌≡◌, ◌↔◌, refl, true, some, String, List, [], ◌∷◌, All, lookup, insert}
use nazh.Dsl.StateGraph.{TransitionSpec, contains, rounds, not_among, unreachable_warnings}
use nazh.Graph.Topology.{sort}
use nazh.Dsl.StateGraph.Cycles.{
  add_transitions, from_name, record_cycle, pop, search_all, dfs_find_cycles, find_trigger_cycles,
}
use nazh.Dsl.StateGraph.Cycles.Linked.{IsCycle}
use nazh.Dsl.StateGraph.Cycles.Found.{Step, reported_are_cycles}
use nazh.Dsl.StateGraph.Reachable.{Reach, warned_iff_unreachable}

abbrev transitions : List TransitionSpec
transitions =
    record { from = "run"; to = "idle"; when = "" }
    ∷ record { from = "idle"; to = "run"; when = "payload.go" }
    ∷ record { from = "lost"; to = "lost"; when = "true" }
    ∷ []

abbrev states : List String
states = "idle" ∷ "lost" ∷ "run" ∷ []

lost_alone : unreachable_warnings states transitions "idle" ≡ some ("lost" ∷ [])
unfolding rounds not_among
lost_alone = refl

warned_iff_unreachable_example :
    (warned : List String) × (unreachable_warnings states transitions "idle" ≡ some warned)
    × ((contains "lost" warned ≡ true)
        ↔ ((contains "lost" states ≡ true) × ¬ Reach transitions "idle" "lost"))
warned_iff_unreachable_example = warned_iff_unreachable states transitions "idle" "lost"

two_cycles :
    find_trigger_cycles states transitions ≡ some (("idle" ∷ "run" ∷ []) ∷ ("lost" ∷ []) ∷ [])
unfolding add_transitions from_name record_cycle pop search_all dfs_find_cycles sort lookup insert
two_cycles = refl

reported_are_cycles_example :
    (found : List (List String)) × (find_trigger_cycles states transitions ≡ some found)
    × All (IsCycle (Step transitions)) found
reported_are_cycles_example = reported_are_cycles states transitions
