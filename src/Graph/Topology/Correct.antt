-- ===== src/Graph/Topology/Correct.antt =====
-- Kahn's algorithm as a whole, the root nodes queued in any arrangement. The ids of a map's entries are unique.
use nazh.Base.{
  ℕ, suc, ◌≤◌, ◌<◌, ◌≡◌, refl, sym, ap, inr, String, List, [], ◌∷◌, ◌++◌, if◌then◌else◌, ◌==◌,
  length, Dict, arith, eq_refl, eq_iff,
}
use nazh.Graph.Types.{WorkflowEdge}
use nazh.Graph.Topology.{keys, each_node, Degrees, add_edges, zeros, drain}
use nazh.Graph.Topology.Count.{one_if, occurs, occurs-append, length-le}
use nazh.Graph.Topology.Waiting.{into, between, IsTopological, waiting_nothing_seen, waiting_mono}
use nazh.Graph.Topology.Degrees.{of_node, IsCounted-ext, IsCollected, Joined}
use nazh.Graph.Topology.Collect.{
  add_edges-IsCollected, each_node-IsCollected, IsCollected-ext, occurs-zeros,
}
use nazh.Graph.Topology.Drain.{is_free, IsDraining, drain-IsDrained}

-- some order of the ids puts every id after the sources of the edges into it
abbrev pub Sortable : List String → List WorkflowEdge → Type 0
Sortable ids es =
    (order : List String) × ((u : String) → occurs u order ≡ occurs u ids)
    × IsTopological es [] order

-- one for a node with no edge into it
abbrev pub is_root : List String → List WorkflowEdge → String → ℕ
is_root ids es u = if occurs u ids == 0 then 0 else one_if (into es u == 0)

pub length-keys : {V : Type 0} (m : Dict V) → length (keys m) ≡ length m
length-keys [] = refl
length-keys ((k, v) ∷ m) = ap suc (length-keys m)

module _ {V : Type 0} (nodes : Dict V) (unique : (u : String) → occurs u (keys nodes) ≤ 1)
    (es : List WorkflowEdge) where
  abbrev pub ids : List String
  ids = keys nodes

  abbrev pub IsReady : Degrees → Type 0
  IsReady d = IsCollected ids (into es) (between es) d

  pub collected :
      (d : Degrees)
      → add_edges nodes es (each_node 0 nodes, each_node [] nodes) ≡ inr d
      → IsReady d × Joined ids es
  collected d e =
      let (h, joined) = add_edges-IsCollected nodes es _ _ _ d (each_node-IsCollected nodes) e in
      (IsCollected-ext nodes _ _ _ _ d (λ u. omega arith) (λ v u. omega arith) h, joined)

  module _ (arrange : List String → List String)
      (permutes : (u : String) (xs : List String) → occurs u (arrange xs) ≡ occurs u xs) where
    pub occurs-roots :
        (d : Degrees) → IsReady d → (u : String) → occurs u (arrange (zeros d.0)) ≡ is_root ids es u
    occurs-roots d h u = ground (
      arith,
      permutes u (zeros d.0),
      occurs-zeros u d.0 (omega (arith, unique u, h.counts.ids_kept u)),
      h.counts.at u,
    )

    start-IsDraining :
        (d : Degrees) (h : IsReady d) → IsDraining ids es d.1 h.lists d.0 (arrange (zeros d.0)) []
    unfolding occurs
    start-IsDraining d h = record {
      counts =
          IsCounted-ext ids _ _ d.0 (λ u. ap (of_node ids u) (sym (waiting_nothing_seen es u)))
            h.counts;
      free = λ u. ground (arith, occurs-roots d h u, waiting_nothing_seen es u);
      sorted = tt;
    }

    abbrev pub drained : Degrees → List String × List String
    drained d = drain (length nodes) d.1 d.0 (arrange (zeros d.0)) []

    pub drained_lem :
        (d : Degrees)
        → IsReady d
        → ((drained d).0 ≡ [])
          × IsTopological es [] (drained d).1
          × ((u : String) → occurs u (drained d).1 ≡ is_free ids es (drained d).1 u)
    drained_lem d h =
        drain-IsDrained ids es d.1 h.lists (length nodes) d.0 (arrange (zeros d.0)) []
          (omega (arith, length-keys nodes)) (start-IsDraining d h)

    pub ordered_once :
        (d : Degrees) → IsReady d → (u : String) → occurs u (drained d).1 ≤ occurs u ids
    ordered_once d h u = ground (arith, (drained_lem d h).2 u)

    -- In an order that respects the edges, everybody is reached.
    reached :
        (d : Degrees) (h : IsReady d) (seen us : List String)
        → ((x : String) → 0 < occurs x seen → 0 < occurs x (drained d).1)
        → ((x : String) → occurs x us ≤ occurs x ids)
        → IsTopological es seen us
        → (x : String) → 0 < occurs x (seen ++ us)
        → 0 < occurs x (drained d).1
    unfolding occurs
    reached d h seen [] before nodes_only sorted x there =
        before x (omega (arith, occurs-append x seen [], there))
    reached d h seen (u ∷ us) before nodes_only sorted x there =
        reached d h (seen ++ u ∷ []) us more (λ y. omega (arith, nodes_only y)) sorted.1 x
          (ground (
            arith,
            there,
            occurs-append x seen (u ∷ us),
            occurs-append x (seen ++ u ∷ []) us,
            occurs-append x seen (u ∷ []),
          ))
      where
        here : 0 < occurs u (drained d).1
        here = ground (
          arith,
          (drained_lem d h).2 u,
          waiting_mono es seen (drained d).1 u before,
          sorted.0,
          nodes_only u,
          eq_refl u,
        )

        more : (y : String) → 0 < occurs y (seen ++ u ∷ []) → 0 < occurs y (drained d).1
        more y present =
            ground (arith, here, before y, occurs-append y seen (u ∷ []), present, eq_iff u y)

    pub drained_all :
        (d : Degrees) → IsReady d → Sortable ids es → length (drained d).1 ≡ length nodes
    unfolding occurs
    drained_all d h (order, same, sorted) =
        let all =
          reached d h [] order (λ x e. absurd (omega arith)) (λ x. omega (arith, same x)) sorted in
        let back = length-le ids (drained d).1 (λ x. ground (arith, all x, same x, unique x)) in
        let forth = length-le (drained d).1 ids (ordered_once d h) in
        omega (arith, back, forth, length-keys nodes)
