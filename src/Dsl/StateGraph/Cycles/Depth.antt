-- ===== src/Dsl/StateGraph/Cycles/Depth.antt =====
-- The search is deep enough: every call but the deepest visits a name that was not visited.
use nazh.Base.{
  ℕ, zero, suc, ◌≤◌, ◌<◌, ◌≡◌, refl, sym, ◌∙◌, ap, true, false, some, String, str_eq, List, [], ◌∷◌,
  if◌then◌else◌, inl, inr, length, Dict, All, arith, eq_iff, Bool-cases, Option,
}
use nazh.Dsl.StateGraph.{contains}
use nazh.Dsl.StateGraph.Cycles.{
  successors, Search, record_cycle, enter, leave, search_all, dfs_find_cycles,
}

-- the names of the list that are not visited
abbrev pub unseen : List String → List String → ℕ
unseen [] visited = 0
unseen (x ∷ xs) visited =
    let rest = unseen xs visited in if contains x visited then rest else suc rest

pub unseen-le-length : (xs visited : List String) → unseen xs visited ≤ length xs
unseen-le-length [] visited = omega arith
unseen-le-length (x ∷ xs) visited = ground (arith, unseen-le-length xs visited)

abbrev pub Extends : List String → List String → Type 0
Extends before after = (name : String) → contains name before ≡ true → contains name after ≡ true

unseen_mono :
    (xs before after : List String) → Extends before after → unseen xs after ≤ unseen xs before
unseen_mono [] before after h = omega arith
unseen_mono (x ∷ xs) before after h = ground (arith, h x, unseen_mono xs before after h)

unseen-lt :
    (xs visited : List String) (x : String)
    → contains x xs ≡ true
    → contains x visited ≡ false
    → unseen xs (x ∷ visited) < unseen xs visited
unseen-lt [] visited x there new = absurd (ground (arith, there))
unseen-lt (y ∷ xs) visited x there new = elim (Bool-cases (str_eq y x)) [
  | inl same ↦
      let p : y ≡ x = (eq_iff y x).0 same in
      let old : contains y visited ≡ false = ap (λ n. contains n visited) p ∙ new in
      let now : contains y (x ∷ visited) ≡ true = ground (arith, (eq_iff x y).1 (sym p)) in
      ground (arith, old, now, unseen_mono xs visited (x ∷ visited) (λ name h. ground (arith, h)))
  | inr other ↦
      let rest = unseen-lt xs visited x (ground (arith, there, other)) new in
      let keeps : Extends visited (x ∷ visited) = λ name h. ground (arith, h) in
      ground (arith, rest, keeps y, eq_iff x y, eq_iff y x, other)
]

record_cycle-visited : (node : String) (s : Search) → (record_cycle node s).visited ≡ s.visited
unfolding record_cycle
record_cycle-visited node s = ground arith

-- the call returns, and forgets nothing that it has visited
abbrev pub Returns : Option Search → Search → Type 0
Returns o s = (after : Search) × (o ≡ some after) × Extends s.visited after.visited

module _ (names : List String) where
  search_all-Returns :
      (search : String → Search → Option Search) (nodes : List String) (bound : ℕ)
      → ((node : String) (s : Search)
          → contains node names ≡ true
          → unseen names s.visited ≤ bound
          → Returns (search node s) s)
      → All (λ node. contains node names ≡ true) nodes
      → (s : Search) → unseen names s.visited ≤ bound
      → Returns (search_all search nodes s) s
  unfolding search_all
  search_all-Returns search [] bound each known s enough = (s, refl, λ name h. h)
  search_all-Returns search (node ∷ nodes) bound each known s enough =
      let (middle, first, kept) = each node s known.0 enough in
      let fewer = unseen_mono names s.visited middle.visited kept in
      let (after, others, more) =
        search_all-Returns search nodes bound each known.1 middle (omega (arith, fewer, enough)) in
      (after, rw (first, search_all) others, λ name h. more name (kept name h))

  module _ (adj : Dict (List String))
      (known : (node : String)
        → All (λ next. contains next names ≡ true) (successors adj node)) where
    dfs-Returns :
        (fuel : ℕ) (node : String) (s : Search)
        → contains node names ≡ true
        → unseen names s.visited < fuel
        → Returns (dfs_find_cycles fuel adj node s) s
    unfolding dfs_find_cycles
    dfs-Returns zero node s there enough = absurd (omega arith)
    dfs-Returns (suc fuel) node s there enough = elim (Bool-cases (contains node s.in_stack)) [
      | inl again ↦ (
        record_cycle node s,
        rw (again, dfs_find_cycles) refl,
        λ name h. rw (record_cycle-visited node s) h,
      )
      | inr new ↦ elim (Bool-cases (contains node s.visited)) [
        | inl old ↦ (s, rw (new, old, dfs_find_cycles) refl, λ name h. h)
        | inr unknown ↦
            let fewer = unseen-lt names s.visited node there unknown in
            let (deep, inner, kept) =
              search_all-Returns (dfs_find_cycles fuel adj) (successors adj node)
                (unseen names (node ∷ s.visited))
                (λ next t is_known within.
                  dfs-Returns fuel next t is_known (omega (arith, enough, fewer, within)))
                (known node) (enter node s) (omega arith) in
            (
              leave node deep,
              rw (new, unknown, dfs_find_cycles) (rw (inner) refl),
              λ name h. kept name (ground (arith, h)),
            )
      ]
    ]

    pub starts-Returns :
        (fuel : ℕ) (states : List String) (s : Search)
        → All (λ node. contains node names ≡ true) states
        → length names < fuel
        → Returns (search_all (dfs_find_cycles fuel adj) states s) s
    starts-Returns fuel states s there enough =
        search_all-Returns (dfs_find_cycles fuel adj) states (length names)
          (λ node t is_known within.
            dfs-Returns fuel node t is_known (omega (arith, enough, within)))
          there s (unseen-le-length names s.visited)
