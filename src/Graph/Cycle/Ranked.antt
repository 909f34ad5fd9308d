-- ===== src/Graph/Cycle/Ranked.antt =====
-- When the cycle check succeeds.
use nazh.Base.{
  ℕ, zero, suc, ◌≤◌, ◌<◌, ◌≡◌, ◌↔◌, refl, sym, ◌∙◌, ap, String, List, [], ◌∷◌, ◌++◌, if◌then◌else◌,
  ◌==◌, inl, inr, ◌⊎◌, All-get, length, arith, Bool-cases,
}
use nazh.Graph.Types.{WorkflowEdge, GraphError, value_cyclic}
use nazh.Graph.Classify.{ClassifiedEdges}
use nazh.Graph.Topology.{keys, Degrees, zeros, drain}
use nazh.Graph.Topology.Count.{occurs, occurs_full, length-le}
use nazh.Graph.Topology.Waiting.{IsTopological}
use nazh.Graph.Topology.Drain.{is_free}
use nazh.Graph.Topology.Correct.{drained, drained_lem, ordered_once, length-keys}
use nazh.Graph.Cycle.{add_names, consume, non_exec_cycle, detect_non_exec_edge_cycle}
use nazh.Graph.Cycle.Names.{names, add_all, add_names-add_all, consume-drain}
use nazh.Graph.Cycle.Tally.{unique_keys, add_all-IsCollected, add_all-Joined}
use nazh.Graph.Cycle.Positions.{
  IsRanked, IsRanked-of, Joined-get, position, unseen_source, source_before,
}

module _ (es : List WorkflowEdge) where
  abbrev collected : Degrees
  collected = add_all es ([], [])

  abbrev ids : List String
  ids = keys collected.0

  abbrev run : List String × List String
  run = drained collected.0 (unique_keys es) es (λ l. l) (λ u l. refl) collected

  run_lem :
      (run.0 ≡ [])
      × IsTopological es [] run.1
      × ((u : String) → occurs u run.1 ≡ is_free ids es run.1 u)
  run_lem =
      drained_lem collected.0 (unique_keys es) es (λ l. l) (λ u l. refl) collected
        (add_all-IsCollected es)

  once : (u : String) → occurs u run.1 ≤ occurs u ids
  once =
      ordered_once collected.0 (unique_keys es) es (λ l. l) (λ u l. refl) collected
        (add_all-IsCollected es)

  rank_of_full : length run.1 ≡ length collected.0 → IsRanked (λ u. position u run.1) es
  unfolding occurs
  rank_of_full full =
      let same = occurs_full run.1 ids once (omega (arith, full, length-keys collected.0)) in
      IsRanked-of _ es λ i e listed.
        let (source, target) = Joined-get ids es i e (add_all-Joined es ([], [])) listed in
        source_before es i e [] run.1 listed run_lem.1 refl (omega (arith, target, same e.to))

  module _ (rank : String → ℕ) (ranked : IsRanked rank es) where
    reached : (n : ℕ) (u : String) → rank u < n → 0 < occurs u ids → 0 < occurs u run.1
    reached zero u below there = absurd (omega arith)
    reached (suc n) u below there = elim (Bool-cases (occurs u run.1 == 0)) [
      | inr seen ↦ ground (arith, seen)
      | inl unseen ↦
          let (i, e, listed, target, source) =
            unseen_source es run.1 u (ground (arith, run_lem.2 u, unseen, there)) in
          let lower = All-get (λ f. rank f.from < rank f.to) es i e ranked listed in
          let (source_there, _) = Joined-get ids es i e (add_all-Joined es ([], [])) listed in
          let found = reached n e.from (omega (arith, below, lower, ap rank target)) source_there in
          absurd (omega (arith, found, source))
    ]

    full_of_rank : length run.1 ≡ length collected.0
    full_of_rank =
        let all : (u : String) → occurs u ids ≤ occurs u run.1 =
          λ u. ground (arith, unique_keys es u, reached (suc (rank u)) u (omega arith)) in
        omega (arith, length-le ids run.1 all, length-le run.1 ids once, length-keys collected.0)

  same_maps : add_names es ([], []) ≡ (collected.0, names collected.1)
  unfolding names
  same_maps = add_names-add_all es ([], [])

  emptied : let d = add_names es ([], []) in (consume (length d.0) d.1 d.0 (zeros d.0) 0).0 ≡ []
  emptied =
      ap (λ d. (consume (length d.0) d.1 d.0 (zeros d.0) 0).0) same_maps
      ∙ ap (λ r. r.0)
          (consume-drain (length collected.0) collected.1 collected.0 (zeros collected.0) [] 0 refl)
      ∙ run_lem.0

  same_count :
      let d = add_names es ([], []) in (consume (length d.0) d.1 d.0 (zeros d.0) 0).1 ≡ length run.1
  same_count =
      ap (λ d. (consume (length d.0) d.1 d.0 (zeros d.0) 0).1) same_maps
      ∙ ap (λ r. r.1)
          (consume-drain (length collected.0) collected.1 collected.0 (zeros collected.0) [] 0 refl)

equal_iff :
    (a b : ℕ)
    → (◌≡◌ {A = GraphError ⊎ Unit {0}} (if a == b then inr tt else inl value_cyclic) (inr tt))
      ↔ (a ≡ b)
equal_iff a b = (λ h. ground (arith, h), λ h. ground (arith, h))

no_edges : length (run []).1 ≡ length (collected []).0
unfolding add_all drain zeros
no_edges = refl

finished_iff :
    (es : List WorkflowEdge)
    → (non_exec_cycle es ≡ inr tt) ↔ (length (run es).1 ≡ length (collected es).0)
unfolding non_exec_cycle
finished_iff [] = (λ h. no_edges, λ h. refl)
finished_iff (e ∷ es) =
    let total = ap (λ d. length d.0) (same_maps (e ∷ es)) in
    let test = equal_iff _ _ in
    (
      λ h. sym (same_count (e ∷ es)) ∙ test.0 h ∙ total,
      λ h. test.1 (same_count (e ∷ es) ∙ h ∙ sym total),
    )

-- The `while` loop of `detect_non_exec_edge_cycle` stops with an empty queue within as many rounds as there are nodes, and the check
-- succeeds exactly if some rank of the nodes grows along every data and every reactive edge, that is,
-- if these edges have no cycle.
pub accepted_iff_IsRanked :
    (c : ClassifiedEdges)
    → let es = c.data_edges ++ c.reactive_edges in
      let d = add_names es ([], []) in
      ((consume (length d.0) d.1 d.0 (zeros d.0) 0).0 ≡ [])
      × ((detect_non_exec_edge_cycle c ≡ inr tt) ↔ ((rank : String → ℕ) × IsRanked rank es))
unfolding detect_non_exec_edge_cycle
accepted_iff_IsRanked c =
    let es = c.data_edges ++ c.reactive_edges in
    let (full, success) = finished_iff es in
    (
      emptied es,
      (
        λ h. ((λ u. position u (run es).1), rank_of_full es (full h)),
        λ (rank, ranked). success (full_of_rank es rank ranked),
      ),
    )
