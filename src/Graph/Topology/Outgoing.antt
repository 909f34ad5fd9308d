-- ===== src/Graph/Topology/Outgoing.antt =====
-- The downstream lists that the first loop of `topology_for_edges` builds, edge by edge.
use nazh.Base.{
  ◌≡◌, refl, sym, ◌∙◌, ap, String, List, [], ◌∷◌, ◌++◌, inl, inr, str_eq, if◌then◌else◌, Dict,
  arith, eq_iff, Bool-cases,
}
use nazh.Graph.Types.{WorkflowEdge}
use nazh.Graph.Topology.{each_node, push_edge, count_edge, Degrees, add_edges, neighbors}
use nazh.Graph.Topology.Collect.{lookup-each_node}
use nazh.Graph.Topology.Degrees.{push_edge-insert, neighbors-insert}

-- the edges of a list that leave a node, in their order
unfoldable pub out_of : String → List WorkflowEdge → List WorkflowEdge
out_of v [] = []
out_of v (e ∷ es) = let rest = out_of v es in if str_eq e.from v then e ∷ rest else rest

append_nil : {A : Type 0} (xs : List A) → xs ++ [] ≡ xs
append_nil [] = refl
append_nil (x ∷ xs) = ap (λ l. x ∷ l) (append_nil xs)

append_assoc : {A : Type 0} (xs ys zs : List A) → (xs ++ ys) ++ zs ≡ xs ++ (ys ++ zs)
append_assoc [] ys zs = refl
append_assoc (x ∷ xs) ys zs = ap (λ l. x ∷ l) (append_assoc xs ys zs)

neighbors-push_edge :
    (e : WorkflowEdge) (v : String) (es : List WorkflowEdge) (m : Dict (List WorkflowEdge))
    → neighbors (push_edge e m) v ++ out_of v es ≡ neighbors m v ++ out_of v (e ∷ es)
unfolding out_of
neighbors-push_edge e v es m =
    let written =
      ap (λ l. neighbors l v) (push_edge-insert e m)
      ∙ neighbors-insert e.from v (neighbors m e.from ++ e ∷ []) m in
    elim (Bool-cases (str_eq e.from v)) [
      | inl same ↦
          let p : neighbors m e.from ≡ neighbors m v =
            ap (neighbors m) ((eq_iff e.from v).0 same) in
          let q : neighbors (push_edge e m) v ≡ neighbors m v ++ e ∷ [] =
            written ∙ rw same (ap (λ l. l ++ e ∷ []) p) in
          rw (same, out_of)
            (ap (λ l. l ++ out_of v es) q ∙ append_assoc (neighbors m v) (e ∷ []) (out_of v es))
      | inr other ↦
          let q : neighbors (push_edge e m) v ≡ neighbors m v = written ∙ rw other refl in
          rw (other, out_of) (ap (λ l. l ++ out_of v es) q)
    ]

module _ {V : Type 0} (nodes : Dict V) where
  add_edges_rest :
      (f : WorkflowEdge) (es : List WorkflowEdge) (d d' : Degrees)
      → add_edges nodes (f ∷ es) d ≡ inr d'
      → add_edges nodes es (count_edge f.to d.0, push_edge f d.1) ≡ inr d'
  unfolding add_edges
  add_edges_rest f es d d' e = ground (arith, e)

  -- each downstream list grows by the edges that leave its node, in the order of the graph's edges
  add_edges-neighbors :
      (es : List WorkflowEdge) (d d' : Degrees) (v : String)
      → add_edges nodes es d ≡ inr d'
      → neighbors d'.1 v ≡ neighbors d.1 v ++ out_of v es
  unfolding add_edges out_of
  add_edges-neighbors [] d d' v e =
      let p : d ≡ d' = cc in ap (λ x. neighbors x.1 v) (sym p) ∙ sym (append_nil (neighbors d.1 v))
  add_edges-neighbors (f ∷ es) d d' v e =
      add_edges-neighbors es (count_edge f.to d.0, push_edge f d.1) d' v
        (add_edges_rest f es d d' e)
      ∙ neighbors-push_edge f v es d.1

  neighbors-each_node : (v : String) → neighbors (each_node {W = List WorkflowEdge} [] nodes) v ≡ []
  neighbors-each_node v = ground (arith, lookup-each_node {W = List WorkflowEdge} [] v nodes)

  pub collected-out_of :
      (es : List WorkflowEdge) (d : Degrees) (v : String)
      → add_edges nodes es (each_node 0 nodes, each_node [] nodes) ≡ inr d
      → neighbors d.1 v ≡ out_of v es
  collected-out_of es d v e =
      add_edges-neighbors es (each_node 0 nodes, each_node [] nodes) d v e
      ∙ ap (λ l. l ++ out_of v es) (neighbors-each_node v)
