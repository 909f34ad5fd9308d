-- ===== src/Dsl/StateGraph/Reachable.antt =====
-- The states that are found are those that a chain of transitions reaches.
use nazh.Base.{
  ℕ, zero, suc, ◌<◌, ◌≡◌, ◌↔◌, refl, sym, ap, true, false, not, ◌&&◌, some, String, str_eq, List,
  [], ◌∷◌, inl, inr, length, All, arith, eq_iff, Bool-cases,
}
use mathlib.Core.Path.{subst}
use nazh.Dsl.StateGraph.{
  TransitionSpec, contains, opens, round, rounds, find_reachable_states, not_among,
  unreachable_warnings,
}
use nazh.Dsl.StateGraph.Rounds.{
  In, missing, missing-le, missing-lt, round-grows, round-idle, round-found,
}

-- that a state is reached: the initial one, the target of a wildcard, or of a transition from one
pub data Reach (transitions : List TransitionSpec) (initial : String) : String → Type 0 where
  start : Reach transitions initial initial
  anywhere : (t : TransitionSpec) → In t transitions → t.from ≡ "*" → Reach transitions initial t.to
  along :
      (t : TransitionSpec)
      → In t transitions
      → Reach transitions initial t.from
      → Reach transitions initial t.to

module _ (transitions : List TransitionSpec) (initial : String) where
  abbrev Sound : List String → Type 0
  Sound found = (name : String) → contains name found ≡ true → Reach transitions initial name

  abbrev Extends : List String → List String → Type 0
  Extends before after = (name : String) → contains name before ≡ true → contains name after ≡ true

  opened-Reach :
      (t : TransitionSpec) (reachable : List String)
      → In t transitions
      → Sound reachable
      → opens t reachable ≡ true
      → Reach transitions initial t.to
  opened-Reach t reachable there sound opened = elim (Bool-cases (str_eq t.from "*")) [
    | inl wild ↦ anywhere t there (ground (arith, eq_iff t.from "*", wild))
    | inr named ↦ along t there (sound t.from (ground (arith, opened, named)))
  ]

  cons-Sound :
      (state : String) (reachable : List String)
      → Reach transitions initial state
      → Sound reachable
      → Sound (state ∷ reachable)
  cons-Sound state reachable reached sound name h = elim (Bool-cases (str_eq state name)) [
    | inl same ↦
        let e : state ≡ name = ground (arith, eq_iff state name, same) in
        subst (Reach transitions initial) e reached
    | inr other ↦ sound name (ground (arith, h, other))
  ]

  round-Sound :
      (some_of : List TransitionSpec) (reachable : List String)
      → ((t : TransitionSpec) → In t some_of → In t transitions)
      → Sound reachable
      → Sound (round some_of reachable).0
  unfolding round
  round-Sound [] reachable within sound = sound
  round-Sound (t ∷ rest) reachable within sound = elim (Bool-cases (opens t reachable)) [
    | inl opened ↦
        rw (opened, round)
          (round-Sound rest (t.to ∷ reachable) (λ u there. within u (inr there))
            (cons-Sound t.to reachable (opened-Reach t reachable (within t (inl refl)) sound opened)
              sound))
    | inr shut ↦
        rw (shut, round) (round-Sound rest reachable (λ u there. within u (inr there)) sound)
  ]

  -- With more fuel than transitions whose target is missing, the loop ends, and what it has found is
  -- sound, extends what it had, and is closed under the transitions.
  rounds-Closed :
      (fuel : ℕ) (reachable : List String)
      → missing transitions reachable < fuel
      → Sound reachable
      → (found : List String) × (rounds fuel transitions reachable ≡ some found)
        × Sound found
        × Extends reachable found
        × All (λ t. opens t found ≡ false) transitions
  unfolding rounds
  rounds-Closed zero reachable enough sound = absurd (omega arith)
  rounds-Closed (suc fuel) reachable enough sound =
      let out = round transitions reachable in
      let sound_after = round-Sound transitions reachable (λ t there. there) sound in
      elim (Bool-cases out.1) [
        | inr idle ↦
            let (same, closed) = round-idle transitions reachable idle in
            (
              out.0,
              rw (idle, rounds) refl,
              sound_after,
              round-grows transitions reachable,
              subst (λ r. All (λ t. opens t r ≡ false) transitions) (sym same) closed,
            )
        | inl busy ↦
            let (t, there, old, new) = round-found transitions reachable busy in
            let fewer =
              missing-lt t transitions reachable out.0 (round-grows transitions reachable) there old
                new in
            let (found, e, ok, more, closed) =
              rounds-Closed fuel out.0 (omega (arith, fewer)) sound_after in
            (
              found,
              rw (busy, rounds) e,
              ok,
              (λ name h. more name (round-grows transitions reachable name h)),
              closed,
            )
      ]

  at_In :
      (t : TransitionSpec) (some_of : List TransitionSpec) (found : List String)
      → All (λ u. opens u found ≡ false) some_of
      → In t some_of
      → opens t found ≡ false
  at_In t [] found all there = absurd there
  at_In t (u ∷ rest) found all (inl same) = subst (λ v. opens v found ≡ false) same all.0
  at_In t (u ∷ rest) found all (inr there) = at_In t rest found all.1 there

  reached-found :
      (found : List String) (name : String)
      → contains initial found ≡ true
      → All (λ t. opens t found ≡ false) transitions
      → Reach transitions initial name
      → contains name found ≡ true
  reached-found found name begun closed start = begun
  reached-found found name begun closed (anywhere t there wild) =
      ground (arith, at_In t transitions found closed there, eq_iff t.from "*", wild)
  reached-found found name begun closed (along t there reached) = ground (
    arith,
    at_In t transitions found closed there,
    reached-found found t.from begun closed reached,
  )

  -- The fuel is enough, and a state is found exactly if a chain of transitions reaches it.
  found_iff_Reach :
      (name : String)
      → (found : List String) × (find_reachable_states transitions initial ≡ some found)
        × ((contains name found ≡ true) ↔ Reach transitions initial name)
  found_iff_Reach name =
      let begin : Sound (initial ∷ []) =
        cons-Sound initial [] start (λ other h. absurd (ground arith)) in
      let (found, e, sound, more, closed) =
        rounds-Closed (suc (length transitions)) (initial ∷ [])
          (omega (arith, missing-le transitions (initial ∷ []))) begin in
      let begun : contains initial found ≡ true =
        more initial (ground (arith, eq_iff initial initial)) in
      (found, e, (sound name, reached-found found name begun closed))

contains-not_among :
    (name : String) (found names : List String)
    → contains name (not_among found names) ≡ (contains name names && not (contains name found))
unfolding not_among
contains-not_among name found [] = refl
contains-not_among name found (s ∷ names) = elim (Bool-cases (str_eq s name)) [
  | inl same ↦
      let e : s ≡ name = ground (arith, eq_iff s name, same) in
      let alike : contains s found ≡ contains name found = ap (λ k. contains k found) e in
      ground (arith, same, alike, contains-not_among name found names)
  | inr other ↦ ground (arith, other, contains-not_among name found names)
]

-- The search for reachable states ends, and the check warns of a state exactly if it is a state of the
-- machine and no chain of transitions from the initial state, or from a wildcard, reaches it.
pub warned_iff_unreachable :
    (states : List String) (transitions : List TransitionSpec) (initial name : String)
    → (warned : List String) × (unreachable_warnings states transitions initial ≡ some warned)
      × ((contains name warned ≡ true)
          ↔ ((contains name states ≡ true) × ¬ Reach transitions initial name))
warned_iff_unreachable states transitions initial name =
    let (found, e, (there, back)) = found_iff_Reach transitions initial name in
    let split = contains-not_among name found states in
    (
      not_among found states,
      rw (e, unreachable_warnings) refl,
      (
        (λ h.
            (ground (arith, split, h), λ reached. absurd (ground (arith, split, h, back reached)))),
        (λ h. elim (Bool-cases (contains name found)) [
          | inl known ↦ absurd (h.1 (there known))
          | inr unknown ↦ ground (arith, split, h.0, unknown)
        ]),
      ),
    )
