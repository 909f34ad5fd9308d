-- ===== src/Core/Variables.antt =====
-- The variables of a workflow, crates/core/src/variables/mod.rs. A `DashMap` is a dictionary, each call
-- one step. What a call sends to the watchers of a variable and to the injected event channel is a
-- log; whether a channel takes it (`try_send`, no receiver) does not change the store. `JsonNumber`
-- stands for serde_json's numbers.
use nazh.Base.{
  Bool, true, false, not, Option, none, some, String, List, [], ◌∷◌, ◌++◌, ◌⊎◌, inl, inr, Dict,
  lookup, insert, remove, if◌then◌else◌,
}
use nazh.Json.{JsonNumber, Value, value_eq}
use nazh.Connections.Types.{DateTime}
use nazh.Core.Pin.{PinType, pin_type_matches_value}
pub mod Typed
pub mod Swaps
pub mod Tests

pub record VariableDeclaration (N : Type 0) : Type 0 where
  pub variable_type : PinType
  pub initial : Value N

pub record TypedVariable (N : Type 0) : Type 0 where
  pub value : Value N
  pub variable_type : PinType
  pub initial : Value N
  pub updated_at : DateTime
  pub updated_by : Option String

pub data VariableError : Type 0 where
  unknown_variable : String → VariableError
  variable_type_mismatch variable_initial_mismatch : String → PinType → VariableError

-- what is sent: to the watchers of a variable, and to the event channel of a workflow
pub data Sent (N : Type 0) : Type 0 where
  watched : String → Option (DateTime × Value N) → Sent N
  changed : String → String → Value N → DateTime → Option String → Sent N
  deleted : String → String → Sent N

pub record WorkflowVariables (N : Type 0) : Type 0 where
  pub inner : Dict (TypedVariable N)
  pub event_sink : Option String  -- the workflow's id, once a sender is injected
  pub sent : List (Sent N)

module _ (J : JsonNumber) where
  open J use {Number}

  -- `TypedVariable::new`, as `from_declarations` calls it
  abbrev pub new_variable : VariableDeclaration Number → DateTime → TypedVariable Number
  new_variable declaration now = record {
    value = declaration.initial;
    variable_type = declaration.variable_type;
    initial = declaration.initial;
    updated_at = now;
    updated_by = none;
  }

  -- the loop of `from_declarations`
  unfoldable pub declare_all :
      Dict (VariableDeclaration Number)
      → DateTime
      → Dict (TypedVariable Number)
      → VariableError ⊎ Dict (TypedVariable Number)
  declare_all [] now inner = inr inner
  declare_all ((name, declaration) ∷ rest) now inner =
      let others = declare_all rest now (insert name (new_variable declaration now) inner) in
      if pin_type_matches_value J declaration.variable_type declaration.initial
      then others
      else inl (variable_initial_mismatch name declaration.variable_type)

  unfoldable pub from_declarations :
      Dict (VariableDeclaration Number) → DateTime → VariableError ⊎ WorkflowVariables Number
  unfolding declare_all
  from_declarations declarations now = elim (declare_all declarations now []) [
    | inl e ↦ inl e
    | inr inner ↦ inr (record { inner = inner; event_sink = none; sent = [] })
  ]

  -- a second injection is ignored
  unfoldable pub set_event_sender : String → WorkflowVariables Number → WorkflowVariables Number
  set_event_sender workflow_id s = elim s.event_sink [
    | none ↦ record s { event_sink = some workflow_id }
    | some _ ↦ s
  ]

  -- `watch_tx.send`, then `try_emit_changed`
  abbrev changed_now :
      Option String → String → Value Number → DateTime → Option String → List (Sent Number)
  changed_now none name value now by = watched name (some (now, value)) ∷ []
  changed_now (some workflow_id) name value now by =
      watched name (some (now, value)) ∷ changed workflow_id name value now by ∷ []

  -- the write that `set` and `compare_and_swap` share
  unfoldable pub write :
      String
      → TypedVariable Number
      → Value Number
      → Option String
      → DateTime
      → WorkflowVariables Number
      → WorkflowVariables Number
  write name entry value by now s = record {
    inner = insert name (record entry { value = value; updated_at = now; updated_by = by }) s.inner;
    event_sink = s.event_sink;
    sent =
        if value_eq J entry.value value
        then s.sent
        else s.sent ++ changed_now s.event_sink name value now by;
  }

  unfoldable pub set :
      String
      → Value Number
      → Option String
      → DateTime
      → WorkflowVariables Number
      → (VariableError ⊎ Unit {0}) × WorkflowVariables Number
  set name value by now s = elim (lookup name s.inner) [
    | none ↦ (inl (unknown_variable name), s)
    | some entry ↦
        if pin_type_matches_value J entry.variable_type value
        then (inr tt, write name entry value by now s)
        else (inl (variable_type_mismatch name entry.variable_type), s)
  ]

  unfoldable pub reset :
      String
      → Option String
      → DateTime
      → WorkflowVariables Number
      → (VariableError ⊎ Unit {0}) × WorkflowVariables Number
  reset name by now s = elim (lookup name s.inner) [
    | none ↦ (inl (unknown_variable name), s)
    | some entry ↦ set name entry.initial by now s
  ]

  unfoldable pub compare_and_swap :
      String
      → Value Number
      → Value Number
      → Option String
      → DateTime
      → WorkflowVariables Number
      → (VariableError ⊎ Bool) × WorkflowVariables Number
  compare_and_swap name expected new by now s = elim (lookup name s.inner) [
    | none ↦ (inl (unknown_variable name), s)
    | some entry ↦
        if not (pin_type_matches_value J entry.variable_type new)
        then (inl (variable_type_mismatch name entry.variable_type), s)
        else if value_eq J entry.value expected
        then (inr true, write name entry new by now s)
        else (inr false, s)
  ]

  unfoldable pub remove_variable :
      String → WorkflowVariables Number → Option (TypedVariable Number) × WorkflowVariables Number
  remove_variable name s = elim (lookup name s.inner) [
    | none ↦ (none, s)
    | some removed ↦ (
      some removed,
      record {
        inner = remove name s.inner;
        event_sink = s.event_sink;
        sent = s.sent ++ elim s.event_sink [
          | none ↦ watched name none ∷ []
          | some workflow_id ↦ watched name none ∷ deleted workflow_id name ∷ []
        ];
      },
    )
  ]

pub data VariableOp (N : Type 0) : Type 0 where
  inject : String → VariableOp N
  write_value : String → Value N → Option String → DateTime → VariableOp N
  reset_value : String → Option String → DateTime → VariableOp N
  swap : String → Value N → Value N → Option String → DateTime → VariableOp N
  forget : String → VariableOp N

module _ (J : JsonNumber) where
  open J use {Number}

  unfoldable pub apply : VariableOp Number → WorkflowVariables Number → WorkflowVariables Number
  apply (inject workflow_id) s = set_event_sender J workflow_id s
  apply (write_value name value by now) s = (set J name value by now s).1
  apply (reset_value name by now) s = (reset J name by now s).1
  apply (swap name expected new by now) s = (compare_and_swap J name expected new by now s).1
  apply (forget name) s = (remove_variable J name s).1

  unfoldable pub apply_all :
      List (VariableOp Number) → WorkflowVariables Number → WorkflowVariables Number
  unfolding apply
  apply_all [] s = s
  apply_all (op ∷ ops) s = apply_all ops (apply op s)
