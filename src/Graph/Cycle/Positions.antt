-- ===== src/Graph/Cycle/Positions.antt =====
-- Edges of a graph by their positions: a rank of the ids, the order as a rank, and the edges that are
-- still waited for.
use nazh.Base.{
  ℕ, zero, suc, ◌≤◌, ◌<◌, ◌≡◌, refl, sym, ◌∙◌, ap, some, String, List, [], ◌∷◌, ◌++◌, str_eq, ◌&&◌,
  if◌then◌else◌, ◌==◌, inl, inr, length, get_elem?, All, arith, eq_iff, eq_refl, Bool-cases,
}
use mathlib.Core.Path.{subst}
use mathlib.Core.List.{append_assoc}
use nazh.Graph.Types.{WorkflowEdge}
use nazh.Graph.Topology.Count.{occurs, occurs-append}
use nazh.Graph.Topology.Waiting.{waiting, IsTopological}
use nazh.Graph.Topology.Degrees.{Joined}

-- Every edge leads to a node of a higher rank.
abbrev pub IsRanked : (String → ℕ) → List WorkflowEdge → Type 0
IsRanked rank es = All (λ e. rank e.from < rank e.to) es

pub IsRanked-of :
    (rank : String → ℕ) (es : List WorkflowEdge)
    → ((i : ℕ) (e : WorkflowEdge) → get_elem? es i ≡ some e → rank e.from < rank e.to)
    → IsRanked rank es
IsRanked-of rank [] h = tt
IsRanked-of rank (e ∷ es) h = (h 0 e refl, IsRanked-of rank es (λ i f listed. h (suc i) f listed))

pub Joined-get :
    (ids : List String) (es : List WorkflowEdge) (i : ℕ) (e : WorkflowEdge)
    → Joined ids es
    → get_elem? es i ≡ some e
    → (0 < occurs e.from ids) × (0 < occurs e.to ids)
Joined-get ids [] i e h listed = absurd (ground (arith, listed))
Joined-get ids (f ∷ es) zero e h listed =
    let same : f ≡ e = cc in subst (λ g. (0 < occurs g.from ids) × (0 < occurs g.to ids)) same h.0
Joined-get ids (f ∷ es) (suc i) e h listed = Joined-get ids es i e h.1 listed

-- the index of the first occurrence, the length if there is none
unfoldable pub position : String → List String → ℕ
position x [] = 0
position x (y ∷ ys) = let rest = suc (position x ys) in if str_eq y x then 0 else rest

position_seen :
    (x : String) (seen us : List String) → 0 < occurs x seen → position x (seen ++ us) < length seen
unfolding position occurs
position_seen x [] us h = absurd (omega arith)
position_seen x (y ∷ seen) us h = ground (arith, h, position_seen x seen us)

position_unseen :
    (x : String) (seen us : List String) → occurs x seen ≡ 0 → length seen ≤ position x (seen ++ us)
unfolding position occurs
position_unseen x [] us h = omega arith
position_unseen x (y ∷ seen) us h = ground (arith, h, position_unseen x seen us)

seen_of_ready :
    (es : List WorkflowEdge) (seen : List String) (i : ℕ) (e : WorkflowEdge)
    → get_elem? es i ≡ some e
    → waiting es seen e.to ≡ 0
    → 0 < occurs e.from seen
unfolding waiting
seen_of_ready [] seen i e listed h = absurd (ground (arith, listed))
seen_of_ready (f ∷ es) seen zero e listed h =
    let same : f ≡ e = cc in
    let here = subst (λ g. waiting (g ∷ es) seen e.to ≡ 0) same h in
    ground (arith, here, eq_refl e.to)
seen_of_ready (f ∷ es) seen (suc i) e listed h = seen_of_ready es seen i e listed (omega (arith, h))

-- an edge that a node still waits for
pub unseen_source :
    (es : List WorkflowEdge) (seen : List String) (u : String)
    → 0 < waiting es seen u
    → (i : ℕ) × (e : WorkflowEdge) × (get_elem? es i ≡ some e)
      × (e.to ≡ u)
      × (occurs e.from seen ≡ 0)
unfolding waiting
unseen_source [] seen u h = absurd (omega arith)
unseen_source (e ∷ es) seen u h = elim (Bool-cases (str_eq e.to u && (occurs e.from seen == 0))) [
  | inl here ↦ (0, e, refl, ground (arith, here, eq_iff e.to u), ground (arith, here))
  | inr other ↦
      let (i, f, listed, target, source) = unseen_source es seen u (ground (arith, h, other)) in
      (suc i, f, listed, target, source)
]

-- In a topological order, the source of an edge stands before its target.
pub source_before :
    (es : List WorkflowEdge) (i : ℕ) (e : WorkflowEdge) (seen us : List String)
    → get_elem? es i ≡ some e
    → IsTopological es seen us
    → occurs e.to seen ≡ 0
    → 0 < occurs e.to us
    → position e.from (seen ++ us) < position e.to (seen ++ us)
unfolding occurs
source_before es i e seen [] listed h new there = absurd (omega arith)
source_before es i e seen (u ∷ us) listed h new there = elim (Bool-cases (str_eq u e.to)) [
  | inl same ↦
      let p : u ≡ e.to = (eq_iff u e.to).0 same in
      let source = seen_of_ready es seen i e listed (ap (waiting es seen) (sym p) ∙ h.0) in
      omega
        (arith, position_seen e.from seen (u ∷ us) source, position_unseen e.to seen (u ∷ us) new)
  | inr other ↦
      subst (λ l. position e.from l < position e.to l) (append_assoc seen (u ∷ []) us)
        (source_before es i e (seen ++ u ∷ []) us listed h.1
          (ground (arith, new, other, occurs-append e.to seen (u ∷ [])))
          (ground (arith, there, other)))
]
