-- ===== src/Dsl/StateGraph/Cycles/Linked.antt =====
-- What the search reports are cycles of transitions.
use nazh.Base.{
  ℕ, zero, suc, ◌≡◌, refl, sym, ◌∙◌, ap, not, Option, some, String, str_eq, List, [], ◌∷◌, ◌++◌,
  inl, inr, Dict, All, All-append, All-map, arith, eq_iff, Bool-cases, Option-cases,
}
use nazh.Base.Options.{◌>>=◌, >>=_elim}
use mathlib.Core.Path.{subst}
use mathlib.Core.Option.{some_inj}
use nazh.Graph.Topology.{sort}
use nazh.Dsl.StateGraph.{contains}
use nazh.Dsl.StateGraph.Cycles.{
  successors, Search, from_name, has_cycle, record_cycle, pop, enter, leave, search_all,
  dfs_find_cycles,
}

abbrev first_of : List String → String → String
first_of [] last = last
first_of (x ∷ _) last = x

module _ (Edge : String → String → Type 0) where
  -- every name has an edge to the next, the last one to `next`
  abbrev pub Linked : List String → String → Type 0
  Linked [] next = Unit
  Linked (x ∷ xs) next = Edge x (first_of xs next) × Linked xs next

  -- a first name, and the names that lead back to it
  abbrev pub IsCycle : List String → Type 0
  IsCycle [] = ⊥
  IsCycle (x ∷ xs) = Linked (x ∷ xs) x

  Linked-snoc :
      (path : List String) (node next : String)
      → Linked path node
      → Edge node next
      → Linked (path ++ node ∷ []) next
  Linked-snoc [] node next h e = (e, tt)
  Linked-snoc (x ∷ []) node next h e = (h.0, (e, tt))
  Linked-snoc (x ∷ y ∷ path) node next h e = (h.0, Linked-snoc (y ∷ path) node next h.1 e)

  from_name-IsCycle :
      (name : String) (path cycle : List String)
      → Linked path name
      → from_name name path ≡ some cycle
      → IsCycle cycle
  unfolding from_name
  from_name-IsCycle name [] cycle h e = absurd (ground (arith, e))
  from_name-IsCycle name (p ∷ path) cycle h e = elim (Bool-cases (str_eq p name)) [
    | inl same ↦
        let q : p ≡ name = (eq_iff p name).0 same in
        let r : p ∷ path ≡ cycle = ground (arith, e, same) in
        subst IsCycle r (subst (λ n. Linked (p ∷ path) n) (sym q) h)
    | inr other ↦ from_name-IsCycle name path cycle h.1 (ground (arith, e, other))
  ]

  record_cycle-IsCycle :
      (node : String) (s : Search)
      → Linked s.path node
      → All IsCycle s.cycles
      → All IsCycle (record_cycle node s).cycles
  unfolding record_cycle
  record_cycle-IsCycle node s h all = elim (Option-cases (from_name node s.path)) [
    | inl e ↦ rw (e, record_cycle) all
    | inr (cycle, e) ↦ elim (Bool-cases (not (has_cycle (sort cycle) s.cycles))) [
      | inl new ↦
          rw (e, new, record_cycle)
            (All-append IsCycle s.cycles (cycle ∷ []) all
              (from_name-IsCycle node s.path cycle h e, tt))
      | inr old ↦ rw (e, old, record_cycle) all
    ]
  ]

  record_cycle-path : (node : String) (s : Search) → (record_cycle node s).path ≡ s.path
  unfolding record_cycle
  record_cycle-path node s = elim (Option-cases (from_name node s.path)) [
    | inl e ↦ rw (e, record_cycle) refl
    | inr (cycle, e) ↦ elim (Bool-cases (not (has_cycle (sort cycle) s.cycles))) [
      | inl new ↦ rw (e, new, record_cycle) refl
      | inr old ↦ rw (e, old, record_cycle) refl
    ]
  ]

  pop-snoc : (path : List String) (node : String) → pop (path ++ node ∷ []) ≡ path
  unfolding pop
  pop-snoc [] node = refl
  pop-snoc (x ∷ []) node = refl
  pop-snoc (x ∷ y ∷ path) node = ap (λ l. x ∷ l) (pop-snoc (y ∷ path) node)

  -- what a call leaves behind
  record IsSearched (s after : Search) : Type 0 where
    path : after.path ≡ s.path
    cycles : All IsCycle after.cycles

  search_all-IsSearched :
      (search : String → Search → Option Search) (path nodes : List String)
      → ((node : String) (s after : Search)
          → s.path ≡ path
          → All IsCycle s.cycles
          → Linked path node
          → search node s ≡ some after
          → IsSearched s after)
      → All (Linked path) nodes
      → (s after : Search) → s.path ≡ path
      → All IsCycle s.cycles
      → search_all search nodes s ≡ some after
      → IsSearched s after
  unfolding search_all
  search_all-IsSearched search path [] each linked s after at all h =
      let same : s ≡ after = cc in
      record {
        path = ap Search.path (sym same);
        cycles = subst (λ x. All IsCycle (Search.cycles x)) same all;
      }
  search_all-IsSearched search path (node ∷ nodes) each linked s after at all h =
      >>=_elim (search node s) _ after h λ middle first rest.
        let one = each node s middle at all linked.0 first in
        let more =
          search_all-IsSearched search path nodes each linked.1 middle after (one.path ∙ at)
            one.cycles rest in
        record { path = more.path ∙ one.path; cycles = more.cycles }

  module _ (adj : Dict (List String))
      (edges : (node : String) → All (Edge node) (successors adj node)) where
    dfs-IsSearched :
        (fuel : ℕ) (node : String) (s after : Search)
        → Linked s.path node
        → All IsCycle s.cycles
        → dfs_find_cycles fuel adj node s ≡ some after
        → IsSearched s after
    unfolding dfs_find_cycles
    dfs-IsSearched zero node s after linked all h = absurd (ground (arith, h))
    dfs-IsSearched (suc fuel) node s after linked all h =
        elim (Bool-cases (contains node s.in_stack)) [
          | inl again ↦
              let r : dfs_find_cycles (suc fuel) adj node s ≡ some (record_cycle node s) =
                rw (again, dfs_find_cycles) refl in
              let same : record_cycle node s ≡ after = some_inj.0 (sym r ∙ h) in
              record {
                path = ap Search.path (sym same) ∙ record_cycle-path node s;
                cycles =
                    subst (λ x. All IsCycle (Search.cycles x)) same
                      (record_cycle-IsCycle node s linked all);
              }
          | inr new ↦ elim (Bool-cases (contains node s.visited)) [
            | inl known ↦
                let r : dfs_find_cycles (suc fuel) adj node s ≡ some s =
                  rw (new, known, dfs_find_cycles) refl in
                let same : s ≡ after = some_inj.0 (sym r ∙ h) in
                record {
                  path = ap Search.path (sym same);
                  cycles = subst (λ x. All IsCycle (Search.cycles x)) same all;
                }
            | inr unknown ↦
                let r : dfs_find_cycles (suc fuel) adj node s ≡ (
                    search_all (dfs_find_cycles fuel adj) (successors adj node) (enter node s)
                    >>= λ deep. some (leave node deep)) =
                  rw (new, unknown, dfs_find_cycles) refl in
                >>=_elim
                  (search_all (dfs_find_cycles fuel adj) (successors adj node) (enter node s)) _
                  after (sym r ∙ h)
                  λ deep inner left.
                    let same : leave node deep ≡ after = some_inj.0 left in
                    let below =
                      search_all-IsSearched (dfs_find_cycles fuel adj) (s.path ++ node ∷ [])
                        (successors adj node)
                        (λ next t u at every to_next found.
                          dfs-IsSearched fuel next t u (subst (λ l. Linked l next) (sym at) to_next)
                            every found)
                        (All-map (successors adj node)
                          (λ next e. Linked-snoc s.path node next linked e) (edges node))
                        (enter node s) deep refl all inner in
                    record {
                      path = ap Search.path (sym same) ∙ ap pop below.path ∙ pop-snoc s.path node;
                      cycles = subst (λ x. All IsCycle (Search.cycles x)) same below.cycles;
                    }
          ]
        ]

    -- from the start, with nothing on the path
    pub starts-IsCycle :
        (fuel : ℕ) (states : List String) (s after : Search)
        → s.path ≡ []
        → s.cycles ≡ []
        → search_all (dfs_find_cycles fuel adj) states s ≡ some after
        → All IsCycle after.cycles
    starts-IsCycle fuel states s after at none_yet h =
        let all =
          search_all-IsSearched (dfs_find_cycles fuel adj) [] states
            (λ node t u empty every linked found.
              dfs-IsSearched fuel node t u (subst (λ l. Linked l node) (sym empty) linked) every
                found)
            (everywhere states) s after at (subst (All IsCycle) (sym none_yet) tt) h in
        all.cycles
      where
        everywhere : (names : List String) → All (Linked []) names
        everywhere [] = tt
        everywhere (x ∷ xs) = (tt, everywhere xs)
