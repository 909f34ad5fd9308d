-- ===== src/Graph/Topology.antt =====
-- crates/graph/src/topology/mod.rs: the check of a workflow graph and Kahn's algorithm. The key order
-- of a `HashMap` is the order of its entries here; the source sorts what it reads off a map.
use Prim.Native.Nat.{Ordering}
use Prim.Native.String.{compare}
use nazh.Base.{
  ℕ, zero, suc, ◌-◌, ◌+◌, Bool, true, false, not, Option, none, some, String, List, [], ◌∷◌, ◌++◌,
  ◌⊎◌, inl, inr, if◌then◌else◌, ◌==◌, length, Dict, lookup, insert, contains_key,
}
use nazh.Graph.Types.{
  WorkflowEdge, WorkflowTopology, GraphError, unknown_source, unknown_target, cyclic, no_root,
}
pub mod Count
pub mod Waiting
pub mod Degrees
pub mod Collect
pub mod Outgoing
pub mod Relax
pub mod Drain
pub mod Correct
pub mod Accepted
pub mod Valid

abbrev pub keys : {V : Type 0} → Dict V → List String
keys [] = []
keys ((k, _) ∷ m) = k ∷ keys m

-- `nodes.keys().map(|id| (id, v)).collect()`
unfoldable pub each_node : {V : Type 0} {W : Type 0} → W → Dict V → Dict W
each_node w [] = []
each_node w ((k, _) ∷ m) = (k, w) ∷ each_node w m

-- `downstream.entry(from).or_default().push(edge)`
unfoldable pub push_edge : WorkflowEdge → Dict (List WorkflowEdge) → Dict (List WorkflowEdge)
push_edge e downstream = elim (lookup e.from downstream) [
  | none ↦ insert e.from (e ∷ []) downstream
  | some edges ↦ insert e.from (edges ++ e ∷ []) downstream
]

-- `if let Some(count) = incoming.get_mut(id) { *count += 1 }`
unfoldable pub count_edge : String → Dict ℕ → Dict ℕ
count_edge id incoming = elim (lookup id incoming) [
  | none ↦ incoming
  | some count ↦ insert id (count + 1) incoming
]

abbrev pub Degrees : Type 0
Degrees = Dict ℕ × Dict (List WorkflowEdge)

-- the first loop
unfoldable pub add_edges :
    {V : Type 0} → Dict V → List WorkflowEdge → Degrees → GraphError ⊎ Degrees
add_edges nodes [] (incoming, downstream) = inr (incoming, downstream)
add_edges nodes (e ∷ es) (incoming, downstream) =
    let rest = add_edges nodes es (count_edge e.to incoming, push_edge e downstream) in
    if not (contains_key e.from nodes)
    then inl (unknown_source e.from)
    else if not (contains_key e.to nodes)
    then inl (unknown_target e.to)
    else rest

-- the nodes whose count is 0
unfoldable pub zeros : Dict ℕ → List String
zeros [] = []
zeros ((k, count) ∷ m) = let rest = zeros m in if count == 0 then k ∷ rest else rest

abbrev is_greater : Ordering → Bool
is_greater Ordering.gt = true
is_greater _ = false

insert_sorted : String → List String → List String
insert_sorted x [] = x ∷ []
insert_sorted x (y ∷ ys) =
    let rest = insert_sorted x ys in if is_greater (compare x y) then y ∷ rest else x ∷ y ∷ ys

unfoldable pub sort : List String → List String
unfolding insert_sorted
sort [] = []
sort (x ∷ xs) = insert_sorted x (sort xs)

-- the inner loop: the edges that leave the node just taken off the queue
-- A count is never 0 here, so that `count - 1`, which stops at 0, is what `*count -= 1` does.
unfoldable pub relax : List WorkflowEdge → Dict ℕ → List String → Dict ℕ × List String
relax [] incoming queue = (incoming, queue)
relax (e ∷ es) incoming queue = elim (lookup e.to incoming) [
  | none ↦ relax es incoming queue
  | some count ↦
      relax es (insert e.to (count - 1) incoming)
        (if count - 1 == 0 then queue ++ e.to ∷ [] else queue)
]

abbrev pub neighbors : Dict (List WorkflowEdge) → String → List WorkflowEdge
neighbors downstream id = elim (lookup id downstream) [ none ↦ [] | some edges ↦ edges ]

-- the `while` loop, at most as many rounds as the fuel: the queue that is left, and the order
unfoldable pub drain :
    ℕ → Dict (List WorkflowEdge) → Dict ℕ → List String → List String → List String × List String
unfolding relax
drain fuel downstream incoming [] order = ([], order)
drain zero downstream incoming (id ∷ queue) order = (id ∷ queue, order)
drain (suc fuel) downstream incoming (id ∷ queue) order =
    let (left, waiting) = relax (neighbors downstream id) incoming queue in
    drain fuel downstream left waiting (order ++ id ∷ [])

unfoldable pub kahn : {V : Type 0} → Dict V → Degrees → GraphError ⊎ WorkflowTopology
unfolding drain sort zeros
kahn nodes (incoming, downstream) =
    let root_nodes = sort (zeros incoming) in
    let order = (drain (length nodes) downstream incoming root_nodes []).1 in
    if length order == length nodes
    then inr (record { root_nodes = root_nodes; downstream = downstream; deployment_order = order })
    else inl cyclic

unfoldable pub topology_for_edges :
    {V : Type 0} → Dict V → List WorkflowEdge → GraphError ⊎ WorkflowTopology
topology_for_edges nodes edges =
    elim (add_edges nodes edges (each_node 0 nodes, each_node [] nodes)) [
      | inl e ↦ inl e
      | inr degrees ↦ kahn nodes degrees
    ]

-- `WorkflowGraph::validate`: the error, if there is one
unfoldable pub validate : {V : Type 0} → Dict V → List WorkflowEdge → Option GraphError
validate nodes edges = elim (topology_for_edges nodes edges) [
  | inl e ↦ some e
  | inr topology ↦ elim topology.root_nodes [ [] ↦ some no_root | _ ∷ _ ↦ none ]
]
