-- ===== src/Core/Variables/Typed.antt =====
-- Every variable of a workflow holds values of its declared type.
use nazh.Base.{
  ◌≡◌, refl, true, Option, none, some, String, List, [], ◌∷◌, inl, inr, Dict, lookup, insert,
  remove, str_eq, lookup-insert, lookup-remove, Option-cases, Bool-cases, sum_cases, arith,
}
use mathlib.Core.Path.{subst}
use nazh.Json.{JsonNumber, Value, value_eq}
use nazh.Connections.Types.{DateTime}
use nazh.Core.Pin.{pin_type_matches_value}
use nazh.Core.Variables.{
  VariableDeclaration, TypedVariable, new_variable, WorkflowVariables, declare_all,
  from_declarations, set_event_sender, write, set, reset, compare_and_swap, remove_variable,
  VariableOp, inject, write_value, reset_value, swap, forget, apply, apply_all,
}

module _ (J : JsonNumber) where
  open J use {Number}

  -- the value and the initial value have the declared type
  pub record IsTyped (v : TypedVariable Number) : Type 0 where
    pub now : pin_type_matches_value J v.variable_type v.value ≡ true
    pub initially : pin_type_matches_value J v.variable_type v.initial ≡ true

  -- an entry that is absent or typed
  abbrev pub TypedEntry : Option (TypedVariable Number) → Type 0
  TypedEntry none = Unit
  TypedEntry (some v) = IsTyped v

  abbrev pub AllTyped : Dict (TypedVariable Number) → Type 0
  AllTyped inner = (name : String) → TypedEntry (lookup name inner)

  insert-AllTyped :
      (k : String) (v : TypedVariable Number) (inner : Dict (TypedVariable Number))
      → IsTyped v
      → AllTyped inner
      → AllTyped (insert k v inner)
  insert-AllTyped k v inner h all name = elim (Bool-cases (str_eq k name)) [
    | inl e ↦ rw (lookup-insert k name v inner) (rw e h)
    | inr e ↦ rw (lookup-insert k name v inner) (rw e (all name))
  ]

  remove-AllTyped :
      (k : String) (inner : Dict (TypedVariable Number))
      → AllTyped inner
      → AllTyped (remove k inner)
  remove-AllTyped k inner all name = elim (Bool-cases (str_eq k name)) [
    | inl e ↦ rw (lookup-remove k name inner) (rw e tt)
    | inr e ↦ rw (lookup-remove k name inner) (rw e (all name))
  ]

  pub IsTyped-at :
      (name : String) (v : TypedVariable Number) (inner : Dict (TypedVariable Number))
      → AllTyped inner
      → lookup name inner ≡ some v
      → IsTyped v
  IsTyped-at name v inner all e = subst TypedEntry e (all name)

  write-AllTyped :
      (name : String) (v : TypedVariable Number) (value : Value Number) (by : Option String)
      (now : DateTime) (s : WorkflowVariables Number)
      → pin_type_matches_value J v.variable_type value ≡ true
      → IsTyped v
      → AllTyped s.inner
      → AllTyped (write J name v value by now s).inner
  unfolding write
  write-AllTyped name v value by now s fits h all =
      insert-AllTyped name _ s.inner (record { now = fits; initially = h.initially }) all

  set-AllTyped :
      (name : String) (value : Value Number) (by : Option String) (now : DateTime)
      (s : WorkflowVariables Number)
      → AllTyped s.inner
      → AllTyped (set J name value by now s).1.inner
  unfolding set
  set-AllTyped name value by now s all = elim (Option-cases (lookup name s.inner)) [
    | inl e ↦ rw (e, set) all
    | inr (v, e) ↦ elim (Bool-cases (pin_type_matches_value J v.variable_type value)) [
      | inl fits ↦
          rw (e, set)
            (rw fits
              (write-AllTyped name v value by now s fits (IsTyped-at name v s.inner all e) all))
      | inr misfit ↦ rw (e, set) (rw misfit all)
    ]
  ]

  reset-AllTyped :
      (name : String) (by : Option String) (now : DateTime) (s : WorkflowVariables Number)
      → AllTyped s.inner
      → AllTyped (reset J name by now s).1.inner
  unfolding reset
  reset-AllTyped name by now s all = elim (Option-cases (lookup name s.inner)) [
    | inl e ↦ rw (e, reset) all
    | inr (v, e) ↦ rw (e, reset) (set-AllTyped name v.initial by now s all)
  ]

  swap-AllTyped :
      (name : String) (expected new : Value Number) (by : Option String) (now : DateTime)
      (s : WorkflowVariables Number)
      → AllTyped s.inner
      → AllTyped (compare_and_swap J name expected new by now s).1.inner
  unfolding compare_and_swap
  swap-AllTyped name expected new by now s all = elim (Option-cases (lookup name s.inner)) [
    | inl e ↦ rw (e, compare_and_swap) all
    | inr (v, e) ↦
        rw (e, compare_and_swap)
          (elim (Bool-cases (pin_type_matches_value J v.variable_type new)) [
            | inl fits ↦
                let written =
                  write-AllTyped name v new by now s fits (IsTyped-at name v s.inner all e) all in
                elim (Bool-cases (value_eq J v.value expected)) [
                  | inl same ↦ rw (fits, same) written
                  | inr other ↦ rw (fits, other) all
                ]
            | inr misfit ↦ rw misfit all
          ])
  ]

  forget-AllTyped :
      (name : String) (s : WorkflowVariables Number)
      → AllTyped s.inner
      → AllTyped (remove_variable J name s).1.inner
  unfolding remove_variable
  forget-AllTyped name s all = elim (Option-cases (lookup name s.inner)) [
    | inl e ↦ rw (e, remove_variable) all
    | inr (v, e) ↦ rw (e, remove_variable) (remove-AllTyped name s.inner all)
  ]

  inject-AllTyped :
      (workflow_id : String) (s : WorkflowVariables Number)
      → AllTyped s.inner
      → AllTyped (set_event_sender J workflow_id s).inner
  unfolding set_event_sender
  inject-AllTyped workflow_id s all = elim (Option-cases s.event_sink) [
    | inl e ↦ rw (e, set_event_sender) all
    | inr (w, e) ↦ rw (e, set_event_sender) all
  ]

  apply-AllTyped :
      (op : VariableOp Number) (s : WorkflowVariables Number)
      → AllTyped s.inner
      → AllTyped (apply J op s).inner
  unfolding apply
  apply-AllTyped (inject workflow_id) s all = inject-AllTyped workflow_id s all
  apply-AllTyped (write_value name value by now) s all = set-AllTyped name value by now s all
  apply-AllTyped (reset_value name by now) s all = reset-AllTyped name by now s all
  apply-AllTyped (swap name expected new by now) s all =
      swap-AllTyped name expected new by now s all
  apply-AllTyped (forget name) s all = forget-AllTyped name s all

  apply_all-AllTyped :
      (ops : List (VariableOp Number)) (s : WorkflowVariables Number)
      → AllTyped s.inner
      → AllTyped (apply_all J ops s).inner
  unfolding apply_all
  apply_all-AllTyped [] s all = all
  apply_all-AllTyped (op ∷ ops) s all =
      apply_all-AllTyped ops (apply J op s) (apply-AllTyped op s all)

  declare_all-AllTyped :
      (ds : Dict (VariableDeclaration Number)) (now : DateTime)
      (inner result : Dict (TypedVariable Number))
      → AllTyped inner
      → declare_all J ds now inner ≡ inr result
      → AllTyped result
  unfolding declare_all
  declare_all-AllTyped [] now inner result all e =
      let p : inner ≡ result = cc in subst AllTyped p all
  declare_all-AllTyped ((name, d) ∷ ds) now inner result all e =
      elim (Bool-cases (pin_type_matches_value J d.variable_type d.initial)) [
        | inl fits ↦
            declare_all-AllTyped ds now (insert name (new_variable J d now) inner) result
              (insert-AllTyped name (new_variable J d now) inner
                (record { now = fits; initially = fits }) all)
              (ground (arith, e, fits))
        | inr misfit ↦ absurd (ground (arith, e, misfit))
      ]

  declared_inner :
      (ds : Dict (VariableDeclaration Number)) (now : DateTime) (s : WorkflowVariables Number)
      → from_declarations J ds now ≡ inr s
      → declare_all J ds now [] ≡ inr s.inner
  unfolding from_declarations
  declared_inner ds now s e = elim (sum_cases (declare_all J ds now [])) [
    | inl (x, f) ↦
        let r : from_declarations J ds now ≡ inl x = rw (f, from_declarations) refl in
        absurd (ground (arith, e, r))
    | inr (inner, f) ↦
        let r : from_declarations J ds now
            ≡ inr (record { inner = inner; event_sink = none; sent = [] }) =
          rw (f, from_declarations) refl in
        ground (arith, f, e, r)
  ]

  -- After any sequence of operations on a store that `from_declarations` built, every variable that is
  -- still there has a value and an initial value of its declared type.
  pub variables-AllTyped :
      (ds : Dict (VariableDeclaration Number)) (now : DateTime) (s : WorkflowVariables Number)
      (ops : List (VariableOp Number))
      → from_declarations J ds now ≡ inr s
      → AllTyped (apply_all J ops s).inner
  unfolding lookup
  variables-AllTyped ds now s ops e =
      apply_all-AllTyped ops s
        (declare_all-AllTyped ds now [] s.inner (λ name. tt) (declared_inner ds now s e))
