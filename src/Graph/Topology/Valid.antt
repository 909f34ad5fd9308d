-- ===== src/Graph/Topology/Valid.antt =====
-- Which graphs `validate` accepts.
use nazh.Base.{
  sum_cases, ◌≤◌, ◌<◌, ◌≡◌, ◌≢◌, refl, ap, ◌↔◌, inl, inr, none, some, String, List, [], ◌∷◌, ◌==◌,
  length, Dict, arith, List-cases, Bool-cases,
}
use mathlib.Core.Path.{subst}
use nazh.Graph.Types.{WorkflowEdge, WorkflowTopology, GraphError, no_root}
use nazh.Graph.Topology.{keys, topology_for_edges, validate}
use nazh.Graph.Topology.Count.{occurs, occurs-le, occurs_head, length-le}
use nazh.Graph.Topology.Waiting.{IsTopological, waiting_nothing_seen}
use nazh.Graph.Topology.Degrees.{Joined}
use nazh.Graph.Topology.Correct.{Sortable, length-keys}
use nazh.Graph.Topology.Accepted.{IsTopologyOf, topology-IsTopologyOf, accepted_iff_Sortable}

module _ {V : Type 0} (nodes : Dict V) (unique : (u : String) → occurs u (keys nodes) ≤ 1)
    (es : List WorkflowEdge) where
  -- a graph with a node has a root: the first of its order
  rooted :
      (t : WorkflowTopology) → IsTopologyOf (keys nodes) es t → 0 < length nodes → t.root_nodes ≢ []
  unfolding occurs
  rooted t h some_node none_found = elim (List-cases t.deployment_order) [
    | inl e ↦
        let short = length-le (keys nodes) t.deployment_order (λ x. omega (arith, h.permutes x)) in
        omega (arith, short, ap length e, length-keys nodes)
    | inr (u, us, e) ↦
        let first : IsTopological es [] (u ∷ us) = subst (IsTopological es []) e h.sorted in
        ground (
          arith,
          first.0,
          waiting_nothing_seen es u,
          h.permutes u,
          h.roots u,
          ap (occurs u) e,
          ap (occurs u) none_found,
          occurs_head u us,
        )
  ]

  rootless :
      (t : WorkflowTopology) → IsTopologyOf (keys nodes) es t → length nodes ≡ 0 → t.root_nodes ≡ []
  unfolding occurs
  rootless t h none_there = elim (List-cases t.root_nodes) [
    | inl e ↦ e
    | inr (u, us, e) ↦ absurd (
        ground (
          arith,
          h.roots u,
          ap (occurs u) e,
          occurs_head u us,
          occurs-le u (keys nodes),
          length-keys nodes,
        ))
  ]

  validated :
      (t : WorkflowTopology) (root : String) (roots : List String)
      → topology_for_edges nodes es ≡ inr t
      → t.root_nodes ≡ root ∷ roots
      → validate nodes es ≡ none
  unfolding validate
  validated t root roots e some_root = rw (e, validate) (rw some_root refl)

  rootless_refused :
      (t : WorkflowTopology)
      → topology_for_edges nodes es ≡ inr t
      → t.root_nodes ≡ []
      → validate nodes es ≡ some no_root
  unfolding validate
  rootless_refused t e none_found = rw (e, validate) (rw none_found refl)

  refused : (x : GraphError) → topology_for_edges nodes es ≡ inl x → validate nodes es ≡ some x
  unfolding validate
  refused x e = rw (e, validate) refl

  -- `validate` finds no fault exactly in the graphs (with unique node ids) with at least one node of which every edge joins
  -- two nodes and which have no cycle.
  pub validate_iff :
      (validate nodes es ≡ none)
      ↔ ((0 < length nodes) × Joined (keys nodes) es × Sortable (keys nodes) es)
  validate_iff = (valid, accepted)
    where
      valid :
          validate nodes es ≡ none
          → (0 < length nodes) × Joined (keys nodes) es × Sortable (keys nodes) es
      valid e = elim (sum_cases (topology_for_edges nodes es)) [
        | inl (x, f) ↦ absurd (ground (arith, e, refused x f))
        | inr (t, f) ↦ elim (Bool-cases (length nodes == 0)) [
          | inl empty ↦
              let r =
                rootless t (topology-IsTopologyOf nodes unique es t f) (ground (arith, empty)) in
              absurd (ground (arith, e, rootless_refused t f r))
          | inr full ↦
              let (joined, sortable) = (accepted_iff_Sortable nodes unique es).0 (t, f) in
              (ground (arith, full), joined, sortable)
        ]
      ]

      accepted :
          (0 < length nodes) × Joined (keys nodes) es × Sortable (keys nodes) es
          → validate nodes es ≡ none
      accepted (some_node, joined, sortable) =
          let (t, f) = (accepted_iff_Sortable nodes unique es).1 (joined, sortable) in
          elim (List-cases t.root_nodes) [
            | inl e ↦ absurd (rooted t (topology-IsTopologyOf nodes unique es t f) some_node e)
            | inr (root, roots, e) ↦ validated t root roots f e
          ]
