-- ===== src/Graph/Topology/Degrees.antt =====
-- What the first loop of `topology_for_edges` collects: the count of the edges into each node and the
-- list of the edges out of it.
use nazh.Base.{
  ℕ, ◌+◌, ◌<◌, ◌≡◌, refl, ◌∙◌, ap, true, false, ◌&&◌, Option, none, some, String, List, [], ◌∷◌,
  ◌++◌, inl, inr, str_eq, if◌then◌else◌, ◌==◌, Dict, lookup, insert, contains_key, lookup-insert,
  arith, eq_iff, Option-cases, Bool-cases,
}
use nazh.Graph.Types.{WorkflowEdge}
use nazh.Graph.Topology.{keys, push_edge, count_edge, Degrees, neighbors}
use nazh.Graph.Topology.Count.{one_if, occurs}
use nazh.Graph.Topology.Waiting.{into, into-append}

-- the count of a node, if there is such a node
abbrev pub of_node : List String → String → ℕ → Option ℕ
of_node ids u n = if occurs u ids == 0 then none else some n

-- a map that has exactly the given ids, each with the count `c`
pub record IsCounted (ids : List String) (c : String → ℕ) (m : Dict ℕ) : Type 0 where
  pub at : (u : String) → lookup u m ≡ of_node ids u (c u)
  pub ids_kept : (u : String) → occurs u (keys m) ≡ occurs u ids

occurs-keys-insert :
    (u k : String) (v w : ℕ) (m : Dict ℕ)
    → lookup k m ≡ some w
    → occurs u (keys (insert k v m)) ≡ occurs u (keys m)
unfolding occurs lookup insert
occurs-keys-insert u k v w [] h = absurd (ground arith)
occurs-keys-insert u k v w ((j, x) ∷ m) h = ground (arith, eq_iff j k, occurs-keys-insert u k v w m)

-- a write to a node's count
pub insert-IsCounted :
    (ids : List String) (c d : String → ℕ) (k : String) (v w : ℕ) (m : Dict ℕ)
    → lookup k m ≡ some w
    → ((u : String) → d u ≡ (if str_eq k u then v else c u))
    → IsCounted ids c m
    → IsCounted ids d (insert k v m)
insert-IsCounted ids c d k v w m h step counted = record {
  at =
      λ u. ground (arith, lookup-insert k u v m, step u, counted.at u, counted.at k, h, eq_iff k u);
  ids_kept = λ u. occurs-keys-insert u k v w m h ∙ counted.ids_kept u;
}

-- counts of ids that are no nodes do not matter
pub IsCounted-ext :
    (ids : List String) (c d : String → ℕ) (m : Dict ℕ)
    → ((u : String) → of_node ids u (c u) ≡ of_node ids u (d u))
    → IsCounted ids c m
    → IsCounted ids d m
IsCounted-ext ids c d m same counted = record {
  at = λ u. counted.at u ∙ same u;
  ids_kept = counted.ids_kept;
}

pub count_edge-IsCounted :
    (ids : List String) (c : String → ℕ) (t : String) (m : Dict ℕ)
    → IsCounted ids c m
    → IsCounted ids (λ u. c u + one_if (str_eq t u)) (count_edge t m)
unfolding count_edge
count_edge-IsCounted ids c t m counted = elim (Option-cases (lookup t m)) [
  | inl e ↦
      rw (e, count_edge)
        (IsCounted-ext ids c _ m (λ u. ground (arith, e, counted.at t, eq_iff t u)) counted)
  | inr (n, e) ↦
      rw (e, count_edge)
        (insert-IsCounted ids c _ t (n + 1) n m e (λ u. ground (arith, e, counted.at t, eq_iff t u))
          counted)
]

pub push_edge-insert :
    (e : WorkflowEdge) (m : Dict (List WorkflowEdge))
    → push_edge e m ≡ insert e.from (neighbors m e.from ++ e ∷ []) m
unfolding push_edge
push_edge-insert e m = ground arith

pub neighbors-insert :
    (k v : String) (edges : List WorkflowEdge) (m : Dict (List WorkflowEdge))
    → neighbors (insert k edges m) v ≡ (if str_eq k v then edges else neighbors m v)
neighbors-insert k v edges m = ground (arith, lookup-insert k v edges m)

into_one : (e : WorkflowEdge) (u : String) → into (e ∷ []) u ≡ one_if (str_eq e.to u)
unfolding into
into_one e u = omega arith

pub push_edge-neighbors :
    (e : WorkflowEdge) (v u : String) (m : Dict (List WorkflowEdge))
    → into (neighbors (push_edge e m) v) u
      ≡ into (neighbors m v) u + one_if (str_eq e.from v && str_eq e.to u)
push_edge-neighbors e v u m =
    let written = ap (λ l. into (neighbors l v) u) (push_edge-insert e m) in
    let read = neighbors-insert e.from v (neighbors m e.from ++ e ∷ []) m in
    let longer = into-append (neighbors m e.from) (e ∷ []) u in
    elim (Bool-cases (str_eq e.from v)) [
      | inl same ↦
          let p : neighbors m e.from ≡ neighbors m v =
            ap (neighbors m) ((eq_iff e.from v).0 same) in
          grind (arith, written, read, longer, into_one e u, p, same)
      | inr other ↦ grind (arith, written, read, other)
    ]

-- what the first loop has collected: for every node the edges into it, and for every two ids the edges
-- from the one to the other
pub record IsCollected (ids : List String) (c : String → ℕ) (b : String → String → ℕ) (d : Degrees)
    : Type 0 where
  pub counts : IsCounted ids c d.0
  pub lists : (v u : String) → into (neighbors d.1 v) u ≡ b v u

-- the edges of which both ends are nodes
abbrev pub Joined : List String → List WorkflowEdge → Type 0
Joined ids [] = Unit
Joined ids (e ∷ es) = ((0 < occurs e.from ids) × (0 < occurs e.to ids)) × Joined ids es

pub contains_key-occurs :
    {V : Type 0} (k : String) (m : Dict V)
    → contains_key k m ≡ (if occurs k (keys m) == 0 then false else true)
unfolding contains_key lookup occurs
contains_key-occurs k [] = refl
contains_key-occurs k ((j, v) ∷ m) = ground (arith, contains_key-occurs k m)
