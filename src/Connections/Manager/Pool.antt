-- ===== src/Connections/Manager/Pool.antt =====
-- How definitions enter the pool, crates/connections/src/manager/mod.rs: `register_connection`,
-- `upsert_connection`, `upsert_connections` and `replace_connections`.
use nazh.Base.{
  ℕ, Bool, true, false, Option, none, some, String, List, [], ◌∷◌, ◌++◌, ◌||◌, if◌then◌else◌,
  get_elem?, Dict, contains_key,
}
use nazh.Connections.Types.{ConnectionDefinition}
use nazh.Connections.Governance.{Governance}
use nazh.Connections.Manager.State.{
  EngineError, connection_already_exists, connection_invalid_configuration, Result, ok, err,
  ConnectionManager, connection_record_in_use, put_record, reset_attempt_window,
  reset_attempt_windows,
}
use nazh.Connections.Manager.Acquire.{build_record}

module _ (G : Governance) where
  open G use {Metadata, validate}

  unfoldable pub register_connection :
      ConnectionDefinition Metadata
      → ConnectionManager Metadata
      → Result Unit × ConnectionManager Metadata
  register_connection d m =
      if contains_key d.id m.connections
      then (err (connection_already_exists d.id), m)
      else elim (validate d.kind d.metadata) [
        | some reason ↦ (err (connection_invalid_configuration d.id reason), m)
        | none ↦ (ok tt, reset_attempt_window d.id (put_record d.id (build_record G d) m))
      ]

  unfoldable pub upsert_connection :
      ConnectionDefinition Metadata
      → ConnectionManager Metadata
      → Result Unit × ConnectionManager Metadata
  upsert_connection d m = elim (validate d.kind d.metadata) [
    | some reason ↦ (err (connection_invalid_configuration d.id reason), m)
    | none ↦
        if contains_key d.id m.shared_sessions
        then (ok tt, m)
        else if connection_record_in_use m d.id
        then (ok tt, m)
        else (ok tt, reset_attempt_window d.id (put_record d.id (build_record G d) m))
  ]

  -- the loop that checks every definition: the first refusal
  unfoldable pub first_invalid : List (ConnectionDefinition Metadata) → Option EngineError
  first_invalid [] = none
  first_invalid (d ∷ ds) =
      let rest = first_invalid ds in
      elim (validate d.kind d.metadata) [
        | some reason ↦ some (connection_invalid_configuration d.id reason)
        | none ↦ rest
      ]

  abbrev pub ids_of : List (ConnectionDefinition Metadata) → List String
  ids_of [] = []
  ids_of (d ∷ ds) = d.id ∷ ids_of ds

  -- the test that makes `upsert_connections` leave a connection alone
  unfoldable pub is_held : ConnectionManager Metadata → String → Bool
  is_held m id = connection_record_in_use m id || contains_key id m.shared_sessions

  unfoldable pub insert_free :
      List (ConnectionDefinition Metadata)
      → List String
      → ConnectionManager Metadata
      → List String × ConnectionManager Metadata
  unfolding is_held
  insert_free [] inserted m = (inserted, m)
  insert_free (d ∷ ds) inserted m = elim (is_held m d.id) [
    | true ↦ insert_free ds inserted m
    | false ↦ insert_free ds (inserted ++ d.id ∷ []) (put_record d.id (build_record G d) m)
  ]

  unfoldable pub upsert_connections :
      List (ConnectionDefinition Metadata)
      → ConnectionManager Metadata
      → Result (List String) × ConnectionManager Metadata
  upsert_connections ds m = elim (first_invalid ds) [
    | some e ↦ (err e, m)
    | none ↦
        let (inserted, written) = insert_free ds [] m in
        (ok inserted, reset_attempt_windows (ids_of ds) written)
  ]

  unfoldable pub any_in_use : ConnectionManager Metadata → Dict ℕ → Bool
  any_in_use m [] = false
  any_in_use m ((id, addr) ∷ rest) =
      elim (get_elem? m.heap addr) [ none ↦ false | some r ↦ r.in_use ] || any_in_use m rest

  unfoldable pub put_all :
      List (ConnectionDefinition Metadata) → ConnectionManager Metadata → ConnectionManager Metadata
  put_all [] m = m
  put_all (d ∷ ds) m = put_all ds (put_record d.id (build_record G d) m)

  unfoldable pub replace_connections :
      List (ConnectionDefinition Metadata)
      → ConnectionManager Metadata
      → Result (List String) × ConnectionManager Metadata
  unfolding any_in_use put_all
  replace_connections ds m = elim m.shared_sessions [
    | _ ∷ _ ↦ (ok [], m)
    | [] ↦ elim (first_invalid ds) [
      | some e ↦ (err e, m)
      | none ↦ if any_in_use m m.connections then (ok [], m) else (
        ok (ids_of ds),
        reset_attempt_windows (ids_of ds) (put_all ds (record m { connections = [] })),
      )
    ]
  ]
