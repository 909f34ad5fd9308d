-- ===== src/Graph/Cycle.antt =====
-- `detect_non_exec_edge_cycle` of crates/graph/src/topology/classify.rs: Kahn's algorithm on the data and
-- reactive edges. `HashMap::iter` visits the entries in the order of their insertion here.
use nazh.Base.{
  ℕ, zero, suc, ◌+◌, ◌-◌, none, some, String, List, [], ◌∷◌, ◌++◌, ◌⊎◌, inl, inr, if◌then◌else◌,
  ◌==◌, length, Dict, lookup, insert,
}
use nazh.Graph.Types.{WorkflowEdge, GraphError, value_cyclic}
use nazh.Graph.Classify.{ClassifiedEdges}
use nazh.Graph.Topology.{zeros}
pub mod Names
pub mod Tally
pub mod Positions
pub mod Ranked
mod Tests

abbrev pub NameDegrees : Type 0
NameDegrees = Dict ℕ × Dict (List String)

-- `incoming.entry(id).or_insert(0)`
unfoldable pub touch : String → Dict ℕ → Dict ℕ
touch id incoming = elim (lookup id incoming) [ none ↦ insert id 0 incoming | some _ ↦ incoming ]

-- `*incoming.entry(id).or_insert(0) += 1`
unfoldable pub count_target : String → Dict ℕ → Dict ℕ
count_target id incoming = elim (lookup id incoming) [
  | none ↦ insert id 1 incoming
  | some count ↦ insert id (count + 1) incoming
]

-- `downstream.entry(from).or_default().push(to)`
unfoldable pub push_target : WorkflowEdge → Dict (List String) → Dict (List String)
push_target e downstream = elim (lookup e.from downstream) [
  | none ↦ insert e.from (e.to ∷ []) downstream
  | some ids ↦ insert e.from (ids ++ e.to ∷ []) downstream
]

-- the loop over the combined edges
unfoldable pub add_names : List WorkflowEdge → NameDegrees → NameDegrees
add_names [] (incoming, downstream) = (incoming, downstream)
add_names (e ∷ es) (incoming, downstream) =
    add_names es (count_target e.to (touch e.from incoming), push_target e downstream)

-- The loop over the neighbors. A count is never 0 here, so that `count - 1`, which stops at 0, is what
-- `*count -= 1` does.
unfoldable pub relax_names : List String → Dict ℕ → List String → Dict ℕ × List String
relax_names [] incoming queue = (incoming, queue)
relax_names (id ∷ ids) incoming queue = elim (lookup id incoming) [
  | none ↦ relax_names ids incoming queue
  | some count ↦
      relax_names ids (insert id (count - 1) incoming)
        (if count - 1 == 0 then queue ++ id ∷ [] else queue)
]

abbrev pub targets : Dict (List String) → String → List String
targets downstream id = elim (lookup id downstream) [ none ↦ [] | some ids ↦ ids ]

-- the `while` loop, at most as many rounds as the fuel: the queue that is left, and `consumed`
unfoldable pub consume : ℕ → Dict (List String) → Dict ℕ → List String → ℕ → List String × ℕ
consume fuel downstream incoming [] consumed = ([], consumed)
consume zero downstream incoming (id ∷ queue) consumed = (id ∷ queue, consumed)
consume (suc fuel) downstream incoming (id ∷ queue) consumed =
    let (left, waiting) = relax_names (targets downstream id) incoming queue in
    consume fuel downstream left waiting (consumed + 1)

unfoldable pub non_exec_cycle : List WorkflowEdge → GraphError ⊎ Unit {0}
unfolding zeros
non_exec_cycle [] = inr tt
non_exec_cycle (e ∷ es) =
    let (incoming, downstream) = add_names (e ∷ es) ([], []) in
    let total_nodes = length incoming in
    let consumed = (consume total_nodes downstream incoming (zeros incoming) 0).1 in
    if consumed == total_nodes then inr tt else inl value_cyclic

unfoldable pub detect_non_exec_edge_cycle : ClassifiedEdges → GraphError ⊎ Unit {0}
detect_non_exec_edge_cycle c = non_exec_cycle (c.data_edges ++ c.reactive_edges)
