-- ===== src/Dsl/StateGraph/Cycles/Found.antt =====
-- `find_trigger_cycles` as a whole.
use nazh.Base.{
  suc, ◌+◌, ◌≡◌, ◌≢◌, refl, sym, ◌∙◌, ap, true, ◌||◌, some, String, str_eq, List, [], ◌∷◌, ◌++◌,
  if◌then◌else◌, inl, inr, length, length-append, Dict, lookup, insert, lookup-insert, All,
  All-append, arith, eq_iff, eq_refl, Bool-cases,
}
use mathlib.Core.Path.{subst}
use nazh.Dsl.StateGraph.{TransitionSpec, contains}
use nazh.Dsl.StateGraph.Rounds.{In}
use nazh.Dsl.StateGraph.Cycles.{add_transitions, successors, Search, find_trigger_cycles}
use nazh.Dsl.StateGraph.Cycles.Linked.{IsCycle, starts-IsCycle}
use nazh.Dsl.StateGraph.Cycles.Depth.{starts-Returns}

-- a transition from the one state to the other, no wildcard
abbrev pub Step : List TransitionSpec → String → String → Type 0
Step transitions a b =
    (t : TransitionSpec) × In t transitions × (t.from ≡ a) × (t.to ≡ b) × (t.from ≢ "*")

successors-insert :
    (k u : String) (names : List String) (adj : Dict (List String))
    → successors (insert k names adj) u ≡ (if str_eq k u then names else successors adj u)
successors-insert k u names adj = ground (arith, lookup-insert k u names adj)

-- what holds of every transition holds of the successors that the loop collects
module _ (P : String → String → Type 0) where
  insert-successors :
      (k next : String) (adj : Dict (List String))
      → P k next
      → ((node : String) → All (P node) (successors adj node))
      → (node : String)
      → All (P node) (successors (insert k (successors adj k ++ next ∷ []) adj) node)
  insert-successors k next adj p h node = elim (Bool-cases (str_eq k node)) [
    | inl same ↦
        let r : successors (insert k (successors adj k ++ next ∷ []) adj) node
            ≡ successors adj k ++ next ∷ [] =
          successors-insert k node _ adj ∙ rw same refl in
        let q : k ≡ node = (eq_iff k node).0 same in
        subst (All (P node)) (sym r) (
          subst (λ n. All (P n) (successors adj k ++ next ∷ [])) q
            (All-append (P k) (successors adj k) (next ∷ []) (h k) (p, tt)))
    | inr other ↦
        let r : successors (insert k (successors adj k ++ next ∷ []) adj) node
            ≡ successors adj node =
          successors-insert k node _ adj ∙ rw other refl in
        subst (All (P node)) (sym r) (h node)
  ]

  add_transitions-successors :
      (transitions : List TransitionSpec) (adj : Dict (List String))
      → ((t : TransitionSpec) → In t transitions → t.from ≢ "*" → P t.from t.to)
      → ((node : String) → All (P node) (successors adj node))
      → (node : String) → All (P node) (successors (add_transitions transitions adj) node)
  unfolding add_transitions
  add_transitions-successors [] adj each h = h
  add_transitions-successors (t ∷ transitions) adj each h = elim (Bool-cases (str_eq t.from "*")) [
    | inl wild ↦
        let r : add_transitions (t ∷ transitions) adj ≡ add_transitions transitions adj =
          rw (wild, add_transitions) refl in
        subst (λ a. (node : String) → All (P node) (successors a node)) (sym r)
          (add_transitions-successors transitions adj (λ u there. each u (inr there)) h)
    | inr named ↦
        let longer = insert t.from (successors adj t.from ++ t.to ∷ []) adj in
        let r : add_transitions (t ∷ transitions) adj ≡ add_transitions transitions longer =
          rw (named, add_transitions) refl in
        let fixed : t.from ≢ "*" = λ e. ground (arith, (eq_iff t.from "*").1 e, named) in
        subst (λ a. (node : String) → All (P node) (successors a node)) (sym r)
          (add_transitions-successors transitions longer (λ u there. each u (inr there))
            (insert-successors t.from t.to adj (each t (inl refl) fixed) h))
  ]

abbrev target_names : List TransitionSpec → List String
target_names [] = []
target_names (t ∷ transitions) = t.to ∷ target_names transitions

length-target_names :
    (transitions : List TransitionSpec) → length (target_names transitions) ≡ length transitions
length-target_names [] = refl
length-target_names (t ∷ transitions) = ap suc (length-target_names transitions)

contains-append :
    (name : String) (xs ys : List String)
    → contains name (xs ++ ys) ≡ (contains name xs || contains name ys)
contains-append name [] ys = refl
contains-append name (x ∷ xs) ys = ground (arith, contains-append name xs ys)

contains-target_names :
    (t : TransitionSpec) (transitions : List TransitionSpec)
    → In t transitions
    → contains t.to (target_names transitions) ≡ true
contains-target_names t [] there = absurd there
contains-target_names t (u ∷ transitions) (inl same) =
    let e : u.to ≡ t.to = ap TransitionSpec.to same in ground (arith, (eq_iff u.to t.to).1 e)
contains-target_names t (u ∷ transitions) (inr there) =
    ground (arith, contains-target_names t transitions there)

all_contained :
    (xs whole : List String)
    → ((name : String) → contains name xs ≡ true → contains name whole ≡ true)
    → All (λ s. contains s whole ≡ true) xs
all_contained [] whole h = tt
all_contained (x ∷ xs) whole h = (
  h x (ground (arith, eq_refl x)),
  all_contained xs whole (λ name there. h name (ground (arith, there))),
)

module _ (states : List String) (transitions : List TransitionSpec) where
  abbrev names : List String
  names = states ++ target_names transitions

  abbrev begin : Search
  begin = record { visited = []; in_stack = []; path = []; cycles = [] }

  own : All (λ s. contains s names ≡ true) states
  own =
      all_contained states names (λ name there.
        ground (arith, contains-append name states (target_names transitions), there))

  known :
      (node : String)
      → All (λ next. contains next names ≡ true) (successors (add_transitions transitions []) node)
  unfolding lookup
  known =
      add_transitions-successors (λ _ next. contains next names ≡ true) transitions []
        (λ t there _. ground (
          arith,
          contains-append t.to states (target_names transitions),
          contains-target_names t transitions there,
        ))
        (λ node. tt)

  edges :
      (node : String)
      → All (Step transitions node) (successors (add_transitions transitions []) node)
  unfolding lookup
  edges =
      add_transitions-successors (Step transitions) transitions []
        (λ t there fixed. (t, there, refl, refl, fixed)) (λ node. tt)

  -- The search for cycles ends, and every cycle that it reports is one: each of its states has a transition that is no
  -- wildcard to the next, and the last one to the first.
  pub reported_are_cycles :
      (found : List (List String)) × (find_trigger_cycles states transitions ≡ some found)
      × All (IsCycle (Step transitions)) found
  reported_are_cycles =
      let adj = add_transitions transitions [] in
      let fuel = suc (length states + length transitions) in
      let (after, e, _) = starts-Returns names adj known fuel states begin own (
        omega (
          arith,
          length-append states (target_names transitions),
          length-target_names transitions,
        )) in
      (
        after.cycles,
        rw (e, find_trigger_cycles) refl,
        starts-IsCycle (Step transitions) adj edges fuel states begin after refl refl e,
      )
