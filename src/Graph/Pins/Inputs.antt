-- ===== src/Graph/Pins/Inputs.antt =====
-- The checks of the inputs: the required ones have an edge into them, and "in" is an exec input.
use nazh.Base.{
  ℕ, zero, suc, ◌≡◌, ◌≢◌, ◌⊎◌, ◌↔◌, refl, ◌∙◌, ap, true, false, ◌&&◌, some, String, List, [], ◌∷◌,
  inl, inr, str_eq, Dict, get_elem?, All, arith, eq_iff, Bool-cases,
}
use nazh.Base.Results.{>>=_elim}
use nazh.Core.Pin.{PinDefinition, PinKind, exec, data_kind, reactive}
use nazh.Graph.Types.{WorkflowEdge, default_input_pin_id}
use nazh.Graph.Pins.{
  NodePins, PinError, target_pin_id, is_covered, is_exec, check_required, check_reserved,
  check_inputs,
}
use nazh.Graph.Pins.Indexed.{by_id, indexes_of}

-- Some edge ends at the pin of the node.
abbrev pub IsFed : String → String → List WorkflowEdge → Type 0
IsFed node pin edges =
    (i : ℕ) × (e : WorkflowEdge) × (get_elem? edges i ≡ some e)
    × (e.to ≡ node)
    × (target_pin_id e ≡ pin)

is_covered_iff :
    (node pin : String) (edges : List WorkflowEdge)
    → (is_covered node pin edges ≡ true) ↔ IsFed node pin edges
unfolding is_covered
is_covered_iff node pin edges = (found edges, covered edges)
  where
    found : (es : List WorkflowEdge) → is_covered node pin es ≡ true → IsFed node pin es
    found [] h = absurd (ground arith)
    found (e ∷ es) h = elim (Bool-cases (str_eq e.to node && str_eq (target_pin_id e) pin)) [
      | inl here ↦ (
        0,
        e,
        refl,
        ground (arith, here, eq_iff e.to node),
        ground (arith, here, eq_iff (target_pin_id e) pin),
      )
      | inr other ↦
          let (i, f, listed, at_node, at_pin) = found es (ground (arith, h, other)) in
          (suc i, f, listed, at_node, at_pin)
    ]

    covered : (es : List WorkflowEdge) → IsFed node pin es → is_covered node pin es ≡ true
    covered [] (i, e, listed, at_node, at_pin) = absurd (ground (arith, listed))
    covered (e ∷ es) (zero, f, listed, at_node, at_pin) =
        let same : e ≡ f = cc in
        let p : str_eq e.to node ≡ true =
          (eq_iff e.to node).1 (ap WorkflowEdge.to same ∙ at_node) in
        let q : str_eq (target_pin_id e) pin ≡ true =
          (eq_iff (target_pin_id e) pin).1 (ap target_pin_id same ∙ at_pin) in
        rw (p, q) refl
    covered (e ∷ es) (suc i, f, listed, at_node, at_pin) =
        let rest = covered es (i, f, listed, at_node, at_pin) in ground (arith, rest)

exec_of : (k : PinKind) → is_exec k ≡ true → k ≡ exec
exec_of exec h = refl
exec_of data_kind h = absurd (ground arith)
exec_of reactive h = absurd (ground arith)

module _ {N : Type 0} where
  -- A required input other than "in" has an edge into it.
  abbrev pub IsSupplied : List WorkflowEdge → String → PinDefinition N → Type 0
  IsSupplied edges node p =
      (p.required ≡ false) ⊎ (p.id ≡ default_input_pin_id) ⊎ IsFed node p.id edges

  -- Only an exec input may be named "in".
  abbrev pub IsUnreserved : PinDefinition N → Type 0
  IsUnreserved p = (p.kind ≡ exec) ⊎ (p.id ≢ default_input_pin_id)

  pub check_required_iff :
      (edges : List WorkflowEdge) (node : String) (ps : List (PinDefinition N))
      → (check_required edges node (by_id ps) ≡ inr tt) ↔ All (IsSupplied edges node) ps
  unfolding check_required by_id
  check_required_iff edges node [] = (λ h. tt, λ h. refl)
  check_required_iff edges node (p ∷ ps) = (
    λ h. elim (Bool-cases p.required) [
      | inr optional ↦
          (inl optional, (check_required_iff edges node ps).0 (ground (arith, h, optional)))
      | inl needed ↦ elim (Bool-cases (str_eq p.id default_input_pin_id)) [
        | inl root ↦ (
          inr (inl ((eq_iff p.id default_input_pin_id).0 root)),
          (check_required_iff edges node ps).0 (ground (arith, h, root)),
        )
        | inr other ↦ elim (Bool-cases (is_covered node p.id edges)) [
          | inl fed ↦ (
            inr (inr ((is_covered_iff node p.id edges).0 fed)),
            (check_required_iff edges node ps).0 (ground (arith, h, fed)),
          )
          | inr unfed ↦ absurd (ground (arith, h, needed, other, unfed))
        ]
      ]
    ],
    λ h.
        let rest = (check_required_iff edges node ps).1 h.1 in
        elim h.0 [
          | inl optional ↦ rw optional rest
          | inr (inl root) ↦ ground (arith, rest, (eq_iff p.id default_input_pin_id).1 root)
          | inr (inr fed) ↦ ground (arith, rest, (is_covered_iff node p.id edges).1 fed)
        ],
  )

  pub check_reserved_iff :
      (node : String) (ps : List (PinDefinition N))
      → (check_reserved node (by_id ps) ≡ inr tt) ↔ All IsUnreserved ps
  unfolding check_reserved by_id
  check_reserved_iff node [] = (λ h. tt, λ h. refl)
  check_reserved_iff node (p ∷ ps) = (
    λ h. elim (Bool-cases (is_exec p.kind)) [
      | inl run ↦
          (inl (exec_of p.kind run), (check_reserved_iff node ps).0 (ground (arith, h, run)))
      | inr value ↦ elim (Bool-cases (str_eq p.id default_input_pin_id)) [
        | inl reserved ↦ absurd (ground (arith, h, value, reserved))
        | inr free ↦ (
          inr (λ e. ground (arith, free, (eq_iff p.id default_input_pin_id).1 e)),
          (check_reserved_iff node ps).0 (ground (arith, h, free)),
        )
      ]
    ],
    λ h.
        let rest = (check_reserved_iff node ps).1 h.1 in
        elim h.0 [
          | inl run ↦ ground (arith, rest, ap is_exec run)
          | inr free ↦ ground (arith, rest, free, eq_iff p.id default_input_pin_id)
        ],
  )

  pub check_inputs_iff :
      (check : String → Dict (PinDefinition N) → PinError ⊎ Unit {0})
      (P : String → PinDefinition N → Type 0)
      → ((node : String) (ps : List (PinDefinition N))
          → (check node (by_id ps) ≡ inr tt) ↔ All (P node) ps)
      → (nodes : Dict (NodePins N))
      → (check_inputs check (indexes_of nodes) ≡ inr tt)
        ↔ All (λ n. All (P n.0) n.1.input_pins) nodes
  unfolding check_inputs indexes_of
  check_inputs_iff check P each [] = (λ h. tt, λ h. refl)
  check_inputs_iff check P each ((id, pins) ∷ nodes) = (
    λ h. >>=_elim (check id (by_id pins.input_pins)) _ tt h (λ done first rest.
        ((each id pins.input_pins).0 first, (check_inputs_iff check P each nodes).0 rest)),
    λ h. rw ((each id pins.input_pins).1 h.0) ((check_inputs_iff check P each nodes).1 h.1),
  )
