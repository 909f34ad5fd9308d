-- ===== src/Graph/Topology/Relax.antt =====
-- The inner loop of Kahn's algorithm: what it subtracts, and whom it puts on the queue.
use nazh.Base.{
  ℕ, ◌+◌, ◌-◌, ◌≡◌, not, ◌&&◌, String, List, [], ◌∷◌, ◌++◌, inl, inr, if◌then◌else◌, ◌==◌, Dict,
  lookup, insert, arith, eq_iff, Option-cases,
}
use nazh.Graph.Types.{WorkflowEdge}
use nazh.Graph.Topology.{relax}
use nazh.Graph.Topology.Count.{one_if, occurs, occurs-append}
use nazh.Graph.Topology.Waiting.{into, occurs_one}
use nazh.Graph.Topology.Degrees.{IsCounted, IsCounted-ext, insert-IsCounted}

-- one for a node whose count reaches 0 by the edges `es`
abbrev pub freed : List String → (String → ℕ) → List WorkflowEdge → String → ℕ
freed ids base es u =
    if occurs u ids == 0 then 0 else one_if ((base u == 0) && not (into es u == 0))

module _ (ids : List String) (base : String → ℕ) where
  pub record IsRelaxed (es : List WorkflowEdge) (queue : List String) (r : Dict ℕ × List String)
      : Type 0 where
    pub counts : IsCounted ids base r.0
    pub queued : (u : String) → occurs u r.1 ≡ occurs u queue + freed ids base es u

  pub relax-IsRelaxed :
      (es : List WorkflowEdge) (m : Dict ℕ) (queue : List String)
      → IsCounted ids (λ u. base u + into es u) m
      → IsRelaxed es queue (relax es m queue)
  unfolding relax into
  relax-IsRelaxed [] m queue counted = record {
    counts = IsCounted-ext ids _ base m (λ u. ground arith) counted;
    queued = λ u. ground arith;
  }
  relax-IsRelaxed (e ∷ es) m queue counted = elim (Option-cases (lookup e.to m)) [
    | inl gone ↦
        let skipped = relax-IsRelaxed es m queue (
          IsCounted-ext ids _ _ m (λ u. ground (arith, gone, counted.at e.to, eq_iff e.to u))
            counted) in
        rw (gone, relax)
          (record {
            counts = skipped.counts;
            queued = λ u. ground (arith, skipped.queued u, gone, counted.at e.to, eq_iff e.to u);
          })
    | inr (n, there) ↦
        let pushed = if n - 1 == 0 then queue ++ e.to ∷ [] else queue in
        let rest = relax-IsRelaxed es (insert e.to (n - 1) m) pushed (
          insert-IsCounted ids _ _ e.to (n - 1) n m there
            (λ u. ground (arith, there, counted.at e.to, eq_iff e.to u)) counted) in
        rw (there, relax)
          (record {
            counts = rest.counts;
            queued = λ u. ground (
              arith,
              rest.queued u,
              there,
              counted.at e.to,
              eq_iff e.to u,
              occurs-append u queue (e.to ∷ []),
              occurs_one u e.to,
            );
          })
  ]
