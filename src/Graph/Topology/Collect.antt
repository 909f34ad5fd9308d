-- ===== src/Graph/Topology/Collect.antt =====
-- The first loop of `topology_for_edges` as a whole, and the root nodes.
use nazh.Base.{
  ℕ, ◌+◌, ◌≤◌, ◌<◌, ◌≡◌, refl, ◌∙◌, ap, ◌&&◌, none, some, String, List, [], ◌∷◌, inr, str_eq,
  if◌then◌else◌, ◌==◌, Dict, lookup, arith,
}
use mathlib.Core.Path.{subst}
use nazh.Graph.Types.{WorkflowEdge}
use nazh.Graph.Topology.{keys, each_node, push_edge, count_edge, Degrees, add_edges, zeros}
use nazh.Graph.Topology.Count.{one_if, occurs}
use nazh.Graph.Topology.Waiting.{into, between}
use nazh.Graph.Topology.Degrees.{
  of_node, IsCounted-ext, IsCollected, Joined, count_edge-IsCounted, push_edge-neighbors,
  contains_key-occurs,
}

module _ {V : Type 0} (nodes : Dict V) where
  IsCollected-step :
      (e : WorkflowEdge) (c : String → ℕ) (b : String → String → ℕ) (d : Degrees)
      → IsCollected (keys nodes) c b d
      → IsCollected
          (keys nodes)
          (λ u. c u + one_if (str_eq e.to u))
          (λ v u. b v u + one_if (str_eq e.from v && str_eq e.to u))
          (count_edge e.to d.0, push_edge e d.1)
  IsCollected-step e c b d h = record {
    counts = count_edge-IsCounted (keys nodes) c e.to d.0 h.counts;
    lists = λ v u.
        push_edge-neighbors e v u d.1
        ∙ ap (λ n. n + one_if (str_eq e.from v && str_eq e.to u)) (h.lists v u);
  }

  pub IsCollected-ext :
      (c c' : String → ℕ) (b b' : String → String → ℕ) (d : Degrees)
      → ((u : String) → c u ≡ c' u)
      → ((v u : String) → b v u ≡ b' v u)
      → IsCollected (keys nodes) c b d
      → IsCollected (keys nodes) c' b' d
  IsCollected-ext c c' b b' d hc hb h = record {
    counts = IsCounted-ext (keys nodes) c c' d.0 (λ u. ap (of_node (keys nodes) u) (hc u)) h.counts;
    lists = λ v u. h.lists v u ∙ hb v u;
  }

  add_edges_head :
      (f : WorkflowEdge) (es : List WorkflowEdge) (d d' : Degrees)
      → add_edges nodes (f ∷ es) d ≡ inr d'
      → ((0 < occurs f.from (keys nodes)) × (0 < occurs f.to (keys nodes)))
        × (add_edges nodes es (count_edge f.to d.0, push_edge f d.1) ≡ inr d')
  unfolding add_edges
  add_edges_head f es d d' e =
      ground (arith, e, contains_key-occurs f.from nodes, contains_key-occurs f.to nodes)

  pub add_edges-IsCollected :
      (es : List WorkflowEdge) (c : String → ℕ) (b : String → String → ℕ) (d d' : Degrees)
      → IsCollected (keys nodes) c b d
      → add_edges nodes es d ≡ inr d'
      → IsCollected (keys nodes) (λ u. c u + into es u) (λ v u. b v u + between es v u) d'
        × Joined (keys nodes) es
  unfolding add_edges into between
  add_edges-IsCollected [] c b d d' h e =
      let p : d ≡ d' = cc in
      (
        subst (IsCollected (keys nodes) _ _) p
            (IsCollected-ext c _ b _ d (λ u. omega arith) (λ v u. omega arith) h),
        tt,
      )
  add_edges-IsCollected (f ∷ es) c b d d' h e =
      let (ends, rest) = add_edges_head f es d d' e in
      let (all, joined) = add_edges-IsCollected es _ _ _ d' (IsCollected-step f c b d h) rest in
      (IsCollected-ext _ _ _ _ d' (λ u. omega arith) (λ v u. omega arith) all, (ends, joined))

  pub add_edges_total :
      (es : List WorkflowEdge) (d : Degrees)
      → Joined (keys nodes) es
      → (d' : Degrees) × (add_edges nodes es d ≡ inr d')
  unfolding add_edges
  add_edges_total [] d h = (d, refl)
  add_edges_total (f ∷ es) d h =
      let (d', e) = add_edges_total es (count_edge f.to d.0, push_edge f d.1) h.1 in
      (d', ground (arith, h.0, e, contains_key-occurs f.from nodes, contains_key-occurs f.to nodes))

pub lookup-each_node :
    {V : Type 0} {W : Type 0} (w : W) (u : String) (m : Dict V)
    → lookup u (each_node w m) ≡ (if occurs u (keys m) == 0 then none else some w)
unfolding lookup each_node occurs
lookup-each_node w u [] = refl
lookup-each_node w u ((k, v) ∷ m) = ground (arith, lookup-each_node w u m)

keys-each_node : {V : Type 0} {W : Type 0} (w : W) (m : Dict V) → keys (each_node w m) ≡ keys m
unfolding each_node
keys-each_node w [] = refl
keys-each_node w ((k, v) ∷ m) = ap (λ ks. k ∷ ks) (keys-each_node w m)

pub each_node-IsCollected :
    {V : Type 0} (nodes : Dict V)
    → IsCollected (keys nodes) (λ u. 0) (λ v u. 0) (each_node 0 nodes, each_node [] nodes)
unfolding into
each_node-IsCollected nodes = record {
  counts = record {
    at = λ u. lookup-each_node 0 u nodes;
    ids_kept = λ u. ap (occurs u) (keys-each_node 0 nodes);
  };
  lists = λ v u. ground (arith, lookup-each_node {W = List WorkflowEdge} [] v nodes);
}

zeros-le : (u : String) (m : Dict ℕ) → occurs u (zeros m) ≤ occurs u (keys m)
unfolding zeros occurs
zeros-le u [] = omega arith
zeros-le u ((k, n) ∷ m) = ground (arith, zeros-le u m)

-- the root nodes are the ids whose count is 0
pub occurs-zeros :
    (u : String) (m : Dict ℕ)
    → occurs u (keys m) ≤ 1
    → occurs u (zeros m) ≡ (elim (lookup u m) [ none ↦ 0 | some n ↦ one_if (n == 0) ])
unfolding zeros occurs lookup
occurs-zeros u [] h = refl
occurs-zeros u ((k, n) ∷ m) h = ground (arith, zeros-le u m, occurs-zeros u m)
