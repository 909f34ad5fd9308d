-- ===== src/Connections/Manager/System/Operations.antt =====
-- The changes of the heap by the named operations of manager/mod.rs and health_ops.rs.
use nazh.Base.{
  List-cases, ℕ, Bool, true, false, String, List, [], ◌∷◌, refl, inl, inr, Option-cases, Bool-cases,
  if_elim, get_elem?, Dict, contains_key,
}
use nazh.Connections.Types.{DateTime, Message, ConnectionDefinition, ConnectionRecord}
use nazh.Connections.Governance.{Governance}
use nazh.Connections.Manager.State.{
  Result, ConnectionManager, entry, reset_attempt_window, reset_attempt_windows,
  connection_record_in_use,
}
use nazh.Connections.Manager.Pool.{
  register_connection, upsert_connection, insert_free, upsert_connections, put_all, any_in_use,
  replace_connections, is_held, first_invalid,
}
use nazh.Connections.Manager.Reports.{
  on_entry, record_failure, rest_entries, mark_all_idle, get, list_entries, list,
}
use nazh.Connections.Manager.System.Changes.{
  Updates, Changes, same, rewrite, after, with_record-Changes, put_record-Changes,
  build_record-IsFresh, failed-Updates, refresh-Updates, rest-Updates,
}

module _ (G : Governance) where
  open G use {Metadata, policy, validate}

  module _ (m : ConnectionManager Metadata) where
    pub on_entry-Changes :
        (forced : Bool) (id : String) (f : ConnectionRecord Metadata → ConnectionRecord Metadata)
        → ((r : ConnectionRecord Metadata) → Updates G forced r (f r))
        → Changes G forced m.heap (on_entry id f m).1.heap
    unfolding on_entry
    on_entry-Changes forced id f u = elim (Option-cases (entry id m)) [
      | inl e ↦ same (rw (e, on_entry))
      | inr (addr, e) ↦ rw (e, on_entry) (with_record-Changes G forced addr f m u)
    ]

    pub record_failure-Changes :
        (is_timeout : Bool) (id : String) (reason : Message) (now : DateTime)
        → Changes G false m.heap (record_failure G is_timeout id reason now m).1.heap
    unfolding record_failure
    record_failure-Changes is_timeout id reason now = elim (Option-cases (entry id m)) [
      | inl e ↦ same (rw (e, record_failure))
      | inr (addr, e) ↦ elim (Option-cases (get_elem? m.heap addr)) [
        | inl e' ↦ same (rw (e, record_failure, e'))
        | inr (r, e') ↦
            rewrite addr r _ e' (failed-Updates G reason is_timeout now r)
              (rw (e, record_failure, e'))
      ]
    ]

    pub get-Changes :
        (id : String) (now : DateTime) → Changes G false m.heap (get G id now m).1.heap
    unfolding get
    get-Changes id now = elim (Option-cases (entry id m)) [
      | inl e ↦ same (rw (e, get))
      | inr (addr, e) ↦ rw (e, get) (with_record-Changes G false addr _ m (refresh-Updates G now))
    ]

    pub register_connection-Changes :
        (d : ConnectionDefinition Metadata)
        → Changes G false m.heap (register_connection G d m).1.heap
    unfolding register_connection reset_attempt_window
    register_connection-Changes d =
        if_elim
          (λ (out : Result Unit × ConnectionManager Metadata). Changes G false m.heap out.1.heap)
          (contains_key d.id m.connections) (λ e. same refl)
          λ e. elim (Option-cases (validate d.kind d.metadata)) [
            | inl e' ↦ rw e' (put_record-Changes G false d.id _ m (build_record-IsFresh G d))
            | inr (reason, e') ↦ rw e' (same refl)
          ]

    pub upsert_connection-Changes :
        (d : ConnectionDefinition Metadata)
        → Changes G false m.heap (upsert_connection G d m).1.heap
    unfolding upsert_connection reset_attempt_window
    upsert_connection-Changes d = elim (Option-cases (validate d.kind d.metadata)) [
      | inr (reason, e) ↦ rw (e, upsert_connection) (same refl)
      | inl e ↦
          rw (e, upsert_connection)
            (if_elim
              (λ (out : Result Unit × ConnectionManager Metadata).
                Changes G false m.heap out.1.heap)
              (contains_key d.id m.shared_sessions) (λ _. same refl)
              λ _.
                if_elim
                  (λ (out : Result Unit × ConnectionManager Metadata).
                    Changes G false m.heap out.1.heap)
                  (connection_record_in_use m d.id) (λ _. same refl)
                  λ _. put_record-Changes G false d.id _ m (build_record-IsFresh G d))
    ]

  insert_free-Changes :
      (ds : List (ConnectionDefinition Metadata)) (inserted : List String)
      (m : ConnectionManager Metadata)
      → Changes G false m.heap (insert_free G ds inserted m).1.heap
  unfolding insert_free
  insert_free-Changes [] inserted m = same refl
  insert_free-Changes (d ∷ ds) inserted m = elim (Bool-cases (is_held G m d.id)) [
    | inl e ↦ rw (e, insert_free) (insert_free-Changes ds inserted m)
    | inr e ↦
        rw (e, insert_free)
          (after (put_record-Changes G false d.id _ m (build_record-IsFresh G d))
            (insert_free-Changes ds _ _))
  ]

  pub upsert_connections-Changes :
      (ds : List (ConnectionDefinition Metadata)) (m : ConnectionManager Metadata)
      → Changes G false m.heap (upsert_connections G ds m).1.heap
  unfolding upsert_connections reset_attempt_windows
  upsert_connections-Changes ds m = elim (Option-cases (first_invalid G ds)) [
    | inl e ↦ rw (e, upsert_connections) (insert_free-Changes ds [] m)
    | inr (reason, e) ↦ rw (e, upsert_connections) (same refl)
  ]

  put_all-Changes :
      (ds : List (ConnectionDefinition Metadata)) (m : ConnectionManager Metadata)
      → Changes G false m.heap (put_all G ds m).heap
  unfolding put_all
  put_all-Changes [] m = same refl
  put_all-Changes (d ∷ ds) m =
      after (put_record-Changes G false d.id _ m (build_record-IsFresh G d)) (put_all-Changes ds _)

  pub replace_connections-Changes :
      (ds : List (ConnectionDefinition Metadata)) (m : ConnectionManager Metadata)
      → Changes G false m.heap (replace_connections G ds m).1.heap
  unfolding replace_connections reset_attempt_windows
  replace_connections-Changes ds m = elim (List-cases m.shared_sessions) [
    | inr (x, others, e) ↦ rw (e, replace_connections) (same refl)
    | inl e ↦
        rw (e, replace_connections)
          (elim (Option-cases (first_invalid G ds)) [
            | inr (reason, e') ↦ rw (e', replace_connections) (same refl)
            | inl e' ↦
                rw (e', replace_connections)
                  (if_elim
                    (λ (out : Result (List String) × ConnectionManager Metadata).
                      Changes G false m.heap out.1.heap)
                    (any_in_use G m m.connections) (λ _. same refl) λ _. put_all-Changes ds _)
          ])
  ]

  rest_entries-Changes :
      (entries : Dict ℕ) (diagnosis : Message) (now : DateTime) (m : ConnectionManager Metadata)
      → Changes G true m.heap (rest_entries entries diagnosis now m).heap
  unfolding rest_entries
  rest_entries-Changes [] diagnosis now m = same refl
  rest_entries-Changes ((id, addr) ∷ entries) diagnosis now m =
      after (with_record-Changes G true addr _ m (rest-Updates G diagnosis now))
        (rest_entries-Changes entries diagnosis now _)

  pub mark_all_idle-Changes :
      (diagnosis : Message) (now : DateTime) (m : ConnectionManager Metadata)
      → Changes G true m.heap (mark_all_idle diagnosis now m).heap
  unfolding mark_all_idle
  mark_all_idle-Changes diagnosis now m = rest_entries-Changes m.connections diagnosis now m

  list_entries-Changes :
      (entries : Dict ℕ) (now : DateTime) (m : ConnectionManager Metadata)
      → Changes G false m.heap (list_entries G entries now m).1.heap
  unfolding list_entries
  list_entries-Changes [] now m = same refl
  list_entries-Changes ((id, addr) ∷ entries) now m =
      after (with_record-Changes G false addr _ m (refresh-Updates G now))
        (list_entries-Changes entries now _)

  pub list-Changes :
      (now : DateTime) (m : ConnectionManager Metadata)
      → Changes G false m.heap (list G now m).1.heap
  unfolding list
  list-Changes now m = list_entries-Changes m.connections now m
