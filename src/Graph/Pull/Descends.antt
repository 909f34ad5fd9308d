-- ===== src/Graph/Pull/Descends.antt =====
-- If a rank grows along the data edges, it falls from a consumer to its upstream nodes.
use nazh.Base.{
  ℕ, ◌<◌, ◌≡◌, refl, sym, ◌∙◌, String, List, [], ◌∷◌, ◌++◌, inl, inr, str_eq, if◌then◌else◌, insert,
  lookup-insert, All, All-append, arith, eq_iff, Bool-cases,
}
use mathlib.Core.Path.{subst}
use nazh.Graph.Types.{WorkflowEdge}
use nazh.Graph.Cycle.Positions.{IsRanked}
use nazh.Graph.Pull.{DataInEdge, EdgesByConsumer, for_consumer, entry_of, index_edges}

for_consumer-insert :
    (k u : String) (entries : List DataInEdge) (m : EdgesByConsumer)
    → for_consumer u (insert k entries m) ≡ (if str_eq k u then entries else for_consumer u m)
for_consumer-insert k u entries m = ground (arith, lookup-insert k u entries m)

-- every entry of a consumer names an upstream node of a lower rank
abbrev pub Descends : (String → ℕ) → EdgesByConsumer → Type 0
Descends rank edges =
    (u : String) → All (λ e. rank e.upstream_node_id < rank u) (for_consumer u edges)

pub index_edges-Descends :
    (rank : String → ℕ) (es : List WorkflowEdge) (m : EdgesByConsumer)
    → IsRanked rank es
    → Descends rank m
    → Descends rank (index_edges es m)
unfolding index_edges
index_edges-Descends rank [] m ranked h = h
index_edges-Descends rank (e ∷ es) m ranked h = index_edges-Descends rank es _ ranked.1 longer
  where
    more : All (λ f. rank f.upstream_node_id < rank e.to) (for_consumer e.to m ++ entry_of e ∷ [])
    more = All-append _ (for_consumer e.to m) (entry_of e ∷ []) (h e.to) (ranked.0, tt)

    longer : Descends rank (insert e.to (for_consumer e.to m ++ entry_of e ∷ []) m)
    longer u = elim (Bool-cases (str_eq e.to u)) [
      | inl same ↦
          let p : for_consumer u (insert e.to (for_consumer e.to m ++ entry_of e ∷ []) m)
              ≡ for_consumer e.to m ++ entry_of e ∷ [] =
            for_consumer-insert e.to u _ m ∙ rw same refl in
          let q : e.to ≡ u = (eq_iff e.to u).0 same in
          subst (All (λ f. rank f.upstream_node_id < rank u)) (sym p) (
            subst
              (λ v.
                All (λ f. rank f.upstream_node_id < rank v)
                  (for_consumer e.to m ++ entry_of e ∷ []))
              q more)
      | inr other ↦
          let p : for_consumer u (insert e.to (for_consumer e.to m ++ entry_of e ∷ []) m)
              ≡ for_consumer u m =
            for_consumer-insert e.to u _ m ∙ rw other refl in
          subst (All (λ f. rank f.upstream_node_id < rank u)) (sym p) (h u)
    ]

pub IsRanked-left :
    (rank : String → ℕ) (es fs : List WorkflowEdge) → IsRanked rank (es ++ fs) → IsRanked rank es
IsRanked-left rank [] fs h = tt
IsRanked-left rank (e ∷ es) fs h = (h.0, IsRanked-left rank es fs h.1)
