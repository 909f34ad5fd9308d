-- ===== src/Graph/Topology/Drain.antt =====
-- The `while` loop of Kahn's algorithm: its invariant, that the fuel is enough, and what is left.
use nazh.Base.{
  ℕ, zero, suc, ◌+◌, ◌≤◌, ◌≡◌, refl, sym, ◌∙◌, ap, String, List, [], ◌∷◌, ◌++◌, if◌then◌else◌, ◌==◌,
  length, length-append, Dict, arith, eq_refl,
}
use mathlib.Core.List.{append_assoc, append-nil}
use nazh.Graph.Types.{WorkflowEdge}
use nazh.Graph.Topology.{neighbors, relax, drain}
use nazh.Graph.Topology.Count.{one_if, occurs, occurs-append, length-le}
use nazh.Graph.Topology.Waiting.{into, between, waiting, IsTopological, occurs_one, waiting_step}
use nazh.Graph.Topology.Degrees.{IsCounted, IsCounted-ext}
use nazh.Graph.Topology.Relax.{relax-IsRelaxed}

IsTopological-snoc :
    (es : List WorkflowEdge) (seen us : List String) (v : String)
    → IsTopological es seen us
    → waiting es (seen ++ us) v ≡ 0
    → IsTopological es seen (us ++ v ∷ [])
IsTopological-snoc es seen [] v h w = (ap (λ l. waiting es l v) (sym (append-nil seen)) ∙ w, tt)
IsTopological-snoc es seen (u ∷ us) v h w = (
  h.0,
  IsTopological-snoc es (seen ++ u ∷ []) us v h.1
      (ap (λ l. waiting es l v) (append_assoc seen (u ∷ []) us) ∙ w),
)

-- one for a node that waits for nobody
abbrev pub is_free : List String → List WorkflowEdge → List String → String → ℕ
is_free ids es order u = if occurs u ids == 0 then 0 else one_if (waiting es order u == 0)

module _ (ids : List String) (es : List WorkflowEdge) (downstream : Dict (List WorkflowEdge))
    (lists : (v u : String) → into (neighbors downstream v) u ≡ between es v u) where
  -- the counts are of the edges still waited for, and the order with the queue has each node that
  -- waits for nobody, once
  pub record IsDraining (m : Dict ℕ) (queue order : List String) : Type 0 where
    pub counts : IsCounted ids (waiting es order) m
    pub free : (u : String) → occurs u order + occurs u queue ≡ is_free ids es order u
    pub sorted : IsTopological es [] order

  module _ (m : Dict ℕ) (v : String) (queue order : List String)
      (h : IsDraining m (v ∷ queue) order) where
    new : occurs v order ≡ 0
    unfolding occurs
    new = ground (arith, h.free v, eq_refl v)

    ready : waiting es order v ≡ 0
    unfolding occurs
    ready = ground (arith, h.free v, eq_refl v)

    split :
        (u : String)
        → waiting es order u ≡ waiting es (order ++ v ∷ []) u + into (neighbors downstream v) u
    split u = omega (arith, waiting_step es order v u new, lists v u)

    step-IsDraining :
        let r = relax (neighbors downstream v) m queue in IsDraining r.0 r.1 (order ++ v ∷ [])
    unfolding occurs
    step-IsDraining =
        let after =
          relax-IsRelaxed ids (waiting es (order ++ v ∷ [])) (neighbors downstream v) m queue
            (IsCounted-ext ids _ _ m (λ u. ground (arith, split u)) h.counts) in
        record {
          counts = after.counts;
          free = λ u. ground (
            arith,
            after.queued u,
            split u,
            h.free u,
            occurs-append u order (v ∷ []),
            occurs_one u v,
          );
          sorted = IsTopological-snoc es [] order v h.sorted ready;
        }

  within :
      (m : Dict ℕ) (queue order : List String)
      → IsDraining m queue order
      → (u : String) → occurs u (order ++ queue) ≤ occurs u ids
  within m queue order h u = ground (arith, occurs-append u order queue, h.free u)

  drained :
      (m : Dict ℕ) (order : List String)
      → IsDraining m [] order
      → (u : String) → occurs u order ≡ is_free ids es order u
  unfolding occurs
  drained m order h u = omega (arith, h.free u)

  -- Fuel for the nodes that are not in the order yet is enough: the queue is empty at the end.
  pub drain-IsDrained :
      (fuel : ℕ) (m : Dict ℕ) (queue order : List String)
      → length ids ≤ fuel + length order
      → IsDraining m queue order
      → let r = drain fuel downstream m queue order in
        (r.0 ≡ [])
        × (IsTopological es [] r.1)
        × ((u : String) → occurs u r.1 ≡ is_free ids es r.1 u)
  unfolding drain
  drain-IsDrained zero m [] order enough h = (refl, h.sorted, drained m order h)
  drain-IsDrained (suc fuel) m [] order enough h = (refl, h.sorted, drained m order h)
  drain-IsDrained zero m (v ∷ queue) order enough h =
      let short = length-le (order ++ v ∷ queue) ids (within m (v ∷ queue) order h) in
      absurd (omega (arith, short, length-append order (v ∷ queue)))
  drain-IsDrained (suc fuel) m (v ∷ queue) order enough h =
      drain-IsDrained fuel _ _ (order ++ v ∷ []) (omega (arith, length-append order (v ∷ [])))
        (step-IsDraining m v queue order h)
