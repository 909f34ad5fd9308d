-- ===== src/Graph/Cycle/Names.antt =====
-- The loops over names of nodes do what the loops of Graph/Topology do over edges.
use nazh.Base.{
  ℕ, zero, suc, ◌+◌, ◌-◌, ◌≡◌, refl, sym, ◌∙◌, ap, none, some, String, List, [], ◌∷◌, ◌++◌,
  if◌then◌else◌, ◌==◌, length, length-append, Dict, lookup, insert, inl, inr, arith, Option-cases,
}
use nazh.Graph.Types.{WorkflowEdge}
use nazh.Graph.Topology.{push_edge, relax, drain, neighbors, Degrees}
use nazh.Graph.Cycle.{touch, count_target, push_target, add_names, relax_names, targets, consume}

abbrev pub ends : List WorkflowEdge → List String
ends [] = []
ends (e ∷ es) = e.to ∷ ends es

unfoldable pub names : Dict (List WorkflowEdge) → Dict (List String)
names [] = []
names ((k, es) ∷ m) = (k, ends es) ∷ names m

ends-append : (es fs : List WorkflowEdge) → ends (es ++ fs) ≡ ends es ++ ends fs
ends-append [] fs = refl
ends-append (e ∷ es) fs = ap (λ l. e.to ∷ l) (ends-append es fs)

lookup-names :
    (id : String) (m : Dict (List WorkflowEdge))
    → lookup id (names m) ≡ (elim (lookup id m) [ none ↦ none | some es ↦ some (ends es) ])
unfolding lookup names
lookup-names id [] = refl
lookup-names id ((k, es) ∷ m) = ground (arith, lookup-names id m)

insert-names :
    (id : String) (es : List WorkflowEdge) (m : Dict (List WorkflowEdge))
    → insert id (ends es) (names m) ≡ names (insert id es m)
unfolding insert names
insert-names id es [] = refl
insert-names id es ((k, fs) ∷ m) = ground (arith, insert-names id es m)

push_target-names :
    (e : WorkflowEdge) (m : Dict (List WorkflowEdge))
    → push_target e (names m) ≡ names (push_edge e m)
unfolding push_target push_edge
push_target-names e m = elim (Option-cases (lookup e.from m)) [
  | inl new ↦
      let r : lookup e.from (names m) ≡ none = lookup-names e.from m ∙ rw new refl in
      rw (r, push_target, new, push_edge) (insert-names e.from (e ∷ []) m)
  | inr (es, old) ↦
      let r : lookup e.from (names m) ≡ some (ends es) = lookup-names e.from m ∙ rw old refl in
      rw (r, push_target, old, push_edge)
        (ap (λ l. insert e.from l (names m)) (sym (ends-append es (e ∷ [])))
          ∙ insert-names e.from (es ++ e ∷ []) m)
]

-- the first loop with lists of edges
unfoldable pub add_all : List WorkflowEdge → Degrees → Degrees
add_all [] d = d
add_all (e ∷ es) d = add_all es (count_target e.to (touch e.from d.0), push_edge e d.1)

pub add_names-add_all :
    (es : List WorkflowEdge) (d : Degrees)
    → add_names es (d.0, names d.1) ≡ ((add_all es d).0, names (add_all es d).1)
unfolding add_names add_all
add_names-add_all [] d = refl
add_names-add_all (e ∷ es) d =
    let i = count_target e.to (touch e.from d.0) in
    ap (λ m. add_names es (i, m)) (push_target-names e d.1)
    ∙ add_names-add_all es (i, push_edge e d.1)

targets-names :
    (id : String) (m : Dict (List WorkflowEdge)) → targets (names m) id ≡ ends (neighbors m id)
targets-names id m = ground (arith, lookup-names id m)

relax_names-relax :
    (es : List WorkflowEdge) (incoming : Dict ℕ) (queue : List String)
    → relax_names (ends es) incoming queue ≡ relax es incoming queue
unfolding relax_names relax
relax_names-relax [] incoming queue = refl
relax_names-relax (e ∷ es) incoming queue = elim (Option-cases (lookup e.to incoming)) [
  | inl new ↦ rw (new, relax_names, relax) (relax_names-relax es incoming queue)
  | inr (count, old) ↦
      rw (old, relax_names, relax)
        (relax_names-relax es (insert e.to (count - 1) incoming)
          (if count - 1 == 0 then queue ++ e.to ∷ [] else queue))
]

-- `consumed` is the length of the order
pub consume-drain :
    (fuel : ℕ) (m : Dict (List WorkflowEdge)) (incoming : Dict ℕ) (queue order : List String)
    (consumed : ℕ)
    → consumed ≡ length order
    → let r = drain fuel m incoming queue order in
      consume fuel (names m) incoming queue consumed ≡ (r.0, length r.1)
unfolding consume drain
consume-drain zero m incoming [] order consumed h = ap (λ n. ([], n)) h
consume-drain (suc fuel) m incoming [] order consumed h = ap (λ n. ([], n)) h
consume-drain zero m incoming (id ∷ queue) order consumed h = ap (λ n. (id ∷ queue, n)) h
consume-drain (suc fuel) m incoming (id ∷ queue) order consumed h =
    let same : relax_names (targets (names m) id) incoming queue
        ≡ relax (neighbors m id) incoming queue =
      ap (λ l. relax_names l incoming queue) (targets-names id m)
      ∙ relax_names-relax (neighbors m id) incoming queue in
    let next = relax (neighbors m id) incoming queue in
    ap (λ r. consume fuel (names m) r.0 r.1 (consumed + 1)) same
    ∙ consume-drain fuel m next.0 next.1 (order ++ id ∷ []) (consumed + 1)
        (omega (arith, h, length-append order (id ∷ [])))
