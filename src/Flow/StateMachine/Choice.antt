-- ===== src/Flow/StateMachine/Choice.antt =====
-- The transition that is chosen: the first, by descending priority and then in the order of the
-- configuration, that applies to the state and whose condition holds.
use nazh.Base.{
  ℕ, ◌≤◌, ◌≡◌, refl, sym, ap, ◌∙◌, true, false, some, String, List, [], ◌∷◌, ◌++◌, ◌⊎◌, inl, inr,
  ltb, ◌==◌, if◌then◌else◌, All, arith, Bool-cases, sum_cases, if_elim,
}
use mathlib.Core.Path.{subst}
use nazh.Json.{Value}
use nazh.Flow.StateMachine.{
  TransitionConfig, StateMachineNode, Scripts, script_runtime, payload_conversion, applies,
  insert_by_priority, sort_by_priority, first_match, evaluate_transitions,
}

-- every later transition has a priority that is not higher
abbrev pub Descending : List TransitionConfig → Type 0
Descending [] = Unit
Descending (t ∷ rest) = All (λ u. u.priority ≤ t.priority) rest × Descending rest

All-insert :
    (P : TransitionConfig → Type 0) (t : TransitionConfig) (sorted : List TransitionConfig)
    → P t
    → All P sorted
    → All P (insert_by_priority t sorted)
unfolding insert_by_priority
All-insert P t [] p h = (p, tt)
All-insert P t (u ∷ sorted) p h =
    if_elim (All P) (ltb t.priority u.priority) (λ _. (h.0, All-insert P t sorted p h.1))
      (λ _. (p, h))

All-sort :
    (P : TransitionConfig → Type 0) (transitions : List TransitionConfig)
    → All P transitions
    → All P (sort_by_priority transitions)
unfolding sort_by_priority
All-sort P [] h = tt
All-sort P (t ∷ transitions) h =
    All-insert P t (sort_by_priority transitions) h.0 (All-sort P transitions h.1)

All-le :
    (a b : ℕ) (rest : List TransitionConfig)
    → a ≤ b
    → All (λ u. u.priority ≤ a) rest
    → All (λ u. u.priority ≤ b) rest
All-le a b [] le h = tt
All-le a b (u ∷ rest) le h = (omega (arith, h.0), All-le a b rest le h.1)

insert-Descending :
    (t : TransitionConfig) (sorted : List TransitionConfig)
    → Descending sorted
    → Descending (insert_by_priority t sorted)
unfolding insert_by_priority
insert-Descending t [] h = (tt, tt)
insert-Descending t (u ∷ sorted) h =
    if_elim Descending (ltb t.priority u.priority)
      (λ lower. (
        All-insert (λ v. v.priority ≤ u.priority) t sorted (ground (arith, lower)) h.0,
        insert-Descending t sorted h.1,
      ))
      (λ enough.
        let le : u.priority ≤ t.priority = ground (arith, enough) in
        ((le, All-le u.priority t.priority sorted le h.0), h))

sort-Descending : (transitions : List TransitionConfig) → Descending (sort_by_priority transitions)
unfolding sort_by_priority
sort-Descending [] = tt
sort-Descending (t ∷ transitions) =
    insert-Descending t (sort_by_priority transitions) (sort-Descending transitions)

-- the transitions of one priority, in their order
abbrev pub of_priority : ℕ → List TransitionConfig → List TransitionConfig
of_priority k [] = []
of_priority k (t ∷ rest) =
    let others = of_priority k rest in if t.priority == k then t ∷ others else others

of_priority-insert :
    (k : ℕ) (t : TransitionConfig) (sorted : List TransitionConfig)
    → of_priority k (insert_by_priority t sorted) ≡ of_priority k (t ∷ sorted)
unfolding insert_by_priority
of_priority-insert k t [] = refl
of_priority-insert k t (u ∷ sorted) = ground (arith, of_priority-insert k t sorted)

of_priority-sort :
    (k : ℕ) (transitions : List TransitionConfig)
    → of_priority k (sort_by_priority transitions) ≡ of_priority k transitions
unfolding sort_by_priority
of_priority-sort k [] = refl
of_priority-sort k (t ∷ transitions) =
    of_priority-insert k t (sort_by_priority transitions) ∙ rw (of_priority-sort k transitions) refl

All-middle :
    (P : TransitionConfig → Type 0) (before after : List TransitionConfig) (t : TransitionConfig)
    → All P (before ++ (t ∷ after))
    → P t
All-middle P [] after t h = h.0
All-middle P (u ∷ before) after t h = All-middle P before after t h.1

module _ {N : Type 0} (R : Scripts N) where
  open R use {Scope, Fault, scope_of, eval}

  -- that one after the other, each transition does not apply or its condition is false; from the scope
  -- that the first condition meets to the one that is left
  abbrev pub Refuses : String → Scope → List TransitionConfig → Scope → Type 0
  Refuses current scope [] last = scope ≡ last
  Refuses current scope (t ∷ rest) last =
      ((applies current t ≡ false) × Refuses current scope rest last)
      ⊎ ((applies current t ≡ true)
          × ((eval t.when scope).0 ≡ inr false)
          × Refuses current (eval t.when scope).1 rest last)

  abbrev pub IsFirstMatch : String → Scope → List TransitionConfig → TransitionConfig → Type 0
  IsFirstMatch current scope transitions t =
      (before : List TransitionConfig) × (after : List TransitionConfig) × (last : Scope)
      × (transitions ≡ before ++ (t ∷ after))
      × Refuses current scope before last
      × (applies current t ≡ true)
      × ((eval t.when last).0 ≡ inr true)

  passed_over :
      (current : String) (scope next : Scope) (u t : TransitionConfig)
      (rest : List TransitionConfig)
      → ((before : List TransitionConfig) (last : Scope)
          → Refuses current next before last
          → Refuses current scope (u ∷ before) last)
      → IsFirstMatch current next rest t
      → IsFirstMatch current scope (u ∷ rest) t
  passed_over current scope next u t rest over (before, after, last, e, refused, ok, holds) =
      (u ∷ before, after, last, ap (λ r. u ∷ r) e, over before last refused, ok, holds)

  first_match-IsFirstMatch :
      (current : String) (scope : Scope) (transitions : List TransitionConfig)
      (t : TransitionConfig)
      → first_match R current scope transitions ≡ inr (some t)
      → IsFirstMatch current scope transitions t
  unfolding first_match
  first_match-IsFirstMatch current scope [] t h = absurd (ground arith)
  first_match-IsFirstMatch current scope (u ∷ rest) t h = elim (Bool-cases (applies current u)) [
    | inr idle ↦
        let r : first_match R current scope (u ∷ rest) ≡ first_match R current scope rest =
          rw (idle, first_match) refl in
        passed_over current scope scope u t rest (λ before last refused. inl (idle, refused))
          (first_match-IsFirstMatch current scope rest t (sym r ∙ h))
    | inl applied ↦ elim (sum_cases (eval u.when scope).0) [
      | inl (fault, e) ↦
          let r : first_match R current scope (u ∷ rest) ≡ inl (script_runtime fault) =
            rw (applied, first_match) (rw e refl) in
          absurd (ground (arith, r, h))
      | inr (true, e) ↦
          let r : first_match R current scope (u ∷ rest) ≡ inr (some u) =
            rw (applied, first_match) (rw e refl) in
          let same : u ≡ t = cc in
          subst (IsFirstMatch current scope (u ∷ rest)) same
            ([], rest, scope, refl, refl, applied, e)
      | inr (false, e) ↦
          let r : first_match R current scope (u ∷ rest)
              ≡ first_match R current (eval u.when scope).1 rest =
            rw (applied, first_match) (rw e refl) in
          passed_over current scope (eval u.when scope).1 u t rest
            (λ before last refused. inr (applied, e, refused))
            (first_match-IsFirstMatch current (eval u.when scope).1 rest t (sym r ∙ h))
    ]
  ]

  -- The transition that a call chooses stands in a list of the configured transitions, sorted by
  -- descending priority with those of one priority in their order: it applies to the state, its
  -- condition holds in the scope that is left by the conditions before it, each transition before it
  -- does not apply or has a false condition.
  pub chosen-IsFirstMatch :
      (node : StateMachineNode) (current : String) (payload : Value N) (t : TransitionConfig)
      (k : ℕ)
      → evaluate_transitions R node current payload ≡ inr (some t)
      → let sorted = sort_by_priority node.config.transitions in
        (scope : Scope) × (scope_of payload ≡ inr scope)
        × (of_priority k sorted ≡ of_priority k node.config.transitions)
        × Descending sorted
        × IsFirstMatch current scope sorted t
  unfolding evaluate_transitions
  chosen-IsFirstMatch node current payload t k h = elim (sum_cases (scope_of payload)) [
    | inl (fault, e) ↦
        let r : evaluate_transitions R node current payload ≡ inl (payload_conversion fault) =
          rw (e, evaluate_transitions) refl in
        absurd (ground (arith, r, h))
    | inr (scope, e) ↦
        let sorted = sort_by_priority node.config.transitions in
        let r : evaluate_transitions R node current payload ≡ first_match R current scope sorted =
          rw (e, evaluate_transitions) refl in
        (
          scope,
          e,
          of_priority-sort k node.config.transitions,
          sort-Descending node.config.transitions,
          first_match-IsFirstMatch current scope sorted t (sym r ∙ h),
        )
  ]

  -- what holds of every transition holds of the chosen one
  pub chosen_among :
      (P : TransitionConfig → Type 0) (node : StateMachineNode) (current : String)
      (payload : Value N) (t : TransitionConfig)
      → All P node.config.transitions
      → evaluate_transitions R node current payload ≡ inr (some t)
      → P t
  chosen_among P node current payload t all h =
      let (scope, _, _, _, found) = chosen-IsFirstMatch node current payload t 0 h in
      let (before, after, _, e, _, _, _) = found in
      All-middle P before after t (subst (All P) e (All-sort P node.config.transitions all))
