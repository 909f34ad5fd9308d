-- ===== src/Dsl/StateGraph/Rounds.antt =====
-- One round of the loop.
use nazh.Base.{
  ℕ, suc, ◌≤◌, ◌<◌, ◌≡◌, refl, sym, ap, ◌∙◌, true, false, String, List, [], ◌∷◌, ◌⊎◌, inl, inr,
  if◌then◌else◌, length, All, arith, eq_iff, Bool-cases,
}
use nazh.Dsl.StateGraph.{TransitionSpec, contains, opens, round}

abbrev pub In : TransitionSpec → List TransitionSpec → Type 0
In t [] = ⊥
In t (u ∷ transitions) = (u ≡ t) ⊎ In t transitions

-- the transitions whose target is not reached yet
abbrev pub missing : List TransitionSpec → List String → ℕ
missing [] reachable = 0
missing (t ∷ transitions) reachable =
    let rest = missing transitions reachable in if contains t.to reachable then rest else suc rest

pub missing-le :
    (transitions : List TransitionSpec) (reachable : List String)
    → missing transitions reachable ≤ length transitions
missing-le [] reachable = omega arith
missing-le (t ∷ transitions) reachable = ground (arith, missing-le transitions reachable)

pub round-grows :
    (transitions : List TransitionSpec) (reachable : List String) (name : String)
    → contains name reachable ≡ true
    → contains name (round transitions reachable).0 ≡ true
unfolding round
round-grows [] reachable name h = h
round-grows (t ∷ transitions) reachable name h = ground (
  arith,
  round-grows transitions reachable name h,
  round-grows transitions (t.to ∷ reachable) name (ground (arith, h)),
)

-- a round that finds nothing has tried every transition in vain
pub round-idle :
    (transitions : List TransitionSpec) (reachable : List String)
    → (round transitions reachable).1 ≡ false
    → ((round transitions reachable).0 ≡ reachable)
      × All (λ t. opens t reachable ≡ false) transitions
unfolding round
round-idle [] reachable h = (refl, tt)
round-idle (t ∷ transitions) reachable h = elim (Bool-cases (opens t reachable)) [
  | inl opened ↦
      let r : round (t ∷ transitions) reachable ≡ ((round transitions (t.to ∷ reachable)).0, true) =
        rw (opened, round) refl in
      absurd (ground (arith, ap (λ o. o.1) r, h))
  | inr shut ↦
      let r : round (t ∷ transitions) reachable ≡ round transitions reachable =
        rw (shut, round) refl in
      let (same, all) = round-idle transitions reachable (sym (ap (λ o. o.1) r) ∙ h) in
      (ap (λ o. o.0) r ∙ same, (shut, all))
]

-- a round that finds something finds the target of a transition that was missing
pub round-found :
    (transitions : List TransitionSpec) (reachable : List String)
    → (round transitions reachable).1 ≡ true
    → (t : TransitionSpec) × In t transitions
      × (contains t.to reachable ≡ false)
      × (contains t.to (round transitions reachable).0 ≡ true)
unfolding round
round-found [] reachable h = absurd (ground arith)
round-found (t ∷ transitions) reachable h = elim (Bool-cases (opens t reachable)) [
  | inl opened ↦
      let r : round (t ∷ transitions) reachable ≡ ((round transitions (t.to ∷ reachable)).0, true) =
        rw (opened, round) refl in
      (
        t,
        inl refl,
        ground (arith, opened),
        ap (λ o. contains t.to o.0) r
            ∙ round-grows transitions (t.to ∷ reachable) t.to (ground (arith, eq_iff t.to t.to)),
      )
  | inr shut ↦
      let r : round (t ∷ transitions) reachable ≡ round transitions reachable =
        rw (shut, round) refl in
      let (u, there, old, new) = round-found transitions reachable (sym (ap (λ o. o.1) r) ∙ h) in
      (u, inr there, old, ap (λ o. contains u.to o.0) r ∙ new)
]

missing_mono :
    (transitions : List TransitionSpec) (before after : List String)
    → ((name : String) → contains name before ≡ true → contains name after ≡ true)
    → missing transitions after ≤ missing transitions before
missing_mono [] before after grows = omega arith
missing_mono (u ∷ transitions) before after grows =
    ground (arith, missing_mono transitions before after grows, grows u.to)

pub missing-lt :
    (t : TransitionSpec) (transitions : List TransitionSpec) (before after : List String)
    → ((name : String) → contains name before ≡ true → contains name after ≡ true)
    → In t transitions
    → contains t.to before ≡ false
    → contains t.to after ≡ true
    → missing transitions after < missing transitions before
missing-lt t [] before after grows there old new = absurd there
missing-lt t (u ∷ transitions) before after grows (inl same) old new =
    let was : contains u.to before ≡ false = rw same old in
    let is : contains u.to after ≡ true = rw same new in
    ground (arith, missing_mono transitions before after grows, was, is)
missing-lt t (u ∷ transitions) before after grows (inr there) old new =
    ground (arith, missing-lt t transitions before after grows there old new, grows u.to)
