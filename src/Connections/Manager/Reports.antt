-- ===== src/Connections/Manager/Reports.antt =====
-- What nodes report of a connection, crates/connections/src/manager/health_ops.rs, and the snapshots
-- `get` and `list` of mod.rs.
pub mod Records
pub mod Counted
use nazh.Base.{
  ℕ, Bool, true, false, Option, none, some, String, List, [], ◌∷◌, if◌then◌else◌, get_elem?, set,
  Dict,
}
use nazh.Connections.Types.{
  DateTime, Message, text, ConnectionHealthState, idle, healthy, degraded, invalid, reconnecting,
  rate_limited, circuit_open, timeout, disconnected, ConnectionHealthSnapshot, ConnectionRecord,
}
use nazh.Connections.Health.{apply_runtime_failure, mark_invalid}
use nazh.Connections.Health.Reconcile.{reconcile_timed_state}
use nazh.Connections.Governance.{Governance}
use nazh.Connections.Manager.State.{
  connection_not_found, Result, ok, err, ConnectionManager, entry, with_record,
}
use nazh.Connections.Manager.Reports.Records.{connected, heartbeat, disconnect, reset_circuit, rest}

module _ {M : Type 0} where
  unfoldable pub on_entry :
      String
      → (ConnectionRecord M → ConnectionRecord M)
      → ConnectionManager M
      → Result Unit × ConnectionManager M
  unfolding entry with_record
  on_entry id f m = elim (entry id m) [
    | none ↦ (err (connection_not_found id), m)
    | some addr ↦ (ok tt, with_record addr f m)
  ]

  unfoldable pub record_connect_success :
      String
      → Message
      → Option ℕ
      → DateTime
      → ConnectionManager M
      → Result Unit × ConnectionManager M
  unfolding on_entry connected
  record_connect_success id diagnosis latency_ms now =
      on_entry id (connected diagnosis latency_ms now)

  unfoldable pub record_heartbeat :
      String → Message → DateTime → ConnectionManager M → Result Unit × ConnectionManager M
  unfolding on_entry heartbeat
  record_heartbeat id diagnosis now = on_entry id (heartbeat diagnosis now)

  unfoldable pub mark_invalid_configuration :
      String → Message → DateTime → ConnectionManager M → Result Unit × ConnectionManager M
  unfolding on_entry
  mark_invalid_configuration id reason now = on_entry id (λ r. mark_invalid r reason now)

  unfoldable pub mark_disconnected :
      String → Message → DateTime → ConnectionManager M → Result Unit × ConnectionManager M
  unfolding on_entry disconnect
  mark_disconnected id diagnosis now = on_entry id (disconnect diagnosis now)

  unfoldable pub reset_circuit_breaker :
      String → DateTime → ConnectionManager M → Result Unit × ConnectionManager M
  unfolding on_entry reset_circuit
  reset_circuit_breaker id now = on_entry id (reset_circuit now)

  unfoldable pub rest_entries :
      Dict ℕ → Message → DateTime → ConnectionManager M → ConnectionManager M
  unfolding rest
  rest_entries [] diagnosis now m = m
  rest_entries ((id, addr) ∷ entries) diagnosis now m =
      rest_entries entries diagnosis now (with_record addr (rest diagnosis now) m)

  -- in one step, at one reading of the clock; the source locks each record in turn
  unfoldable pub mark_all_idle : Message → DateTime → ConnectionManager M → ConnectionManager M
  unfolding rest_entries
  mark_all_idle diagnosis now m = rest_entries m.connections diagnosis now m

module _ (G : Governance) where
  open G use {Metadata, policy}

  -- `record_connect_failure` and `record_timeout`: the delay that the source returns, and the state
  unfoldable pub record_failure :
      Bool
      → String
      → Message
      → DateTime
      → ConnectionManager Metadata
      → Result ℕ × ConnectionManager Metadata
  record_failure is_timeout id reason now m = elim (entry id m) [
    | none ↦ (err (connection_not_found id), m)
    | some addr ↦ elim (get_elem? m.heap addr) [
      | none ↦ (err (connection_not_found id), m)
      | some r ↦
          let (failed, retry_after_ms) =
            apply_runtime_failure r (policy r.metadata) now reason is_timeout in
          (ok retry_after_ms, record m { heap = set m.heap addr failed })
    ]
  ]

  unfoldable pub record_connect_failure :
      String
      → Message
      → DateTime
      → ConnectionManager Metadata
      → Result ℕ × ConnectionManager Metadata
  unfolding record_failure
  record_connect_failure = record_failure false

  unfoldable pub record_timeout :
      String
      → Message
      → DateTime
      → ConnectionManager Metadata
      → Result ℕ × ConnectionManager Metadata
  unfolding record_failure
  record_timeout = record_failure true

  unfoldable pub refresh : DateTime → ConnectionRecord Metadata → ConnectionRecord Metadata
  refresh now r = reconcile_timed_state r (policy r.metadata) now

  -- `get`: the snapshot, and the state with the record's timers brought up to date
  unfoldable pub get :
      String
      → DateTime
      → ConnectionManager Metadata
      → Option (ConnectionRecord Metadata) × ConnectionManager Metadata
  unfolding refresh
  get id now m = elim (entry id m) [
    | none ↦ (none, m)
    | some addr ↦
        let refreshed = with_record addr (refresh now) m in
        (get_elem? refreshed.heap addr, refreshed)
  ]

  unfoldable pub list_entries :
      Dict ℕ
      → DateTime
      → ConnectionManager Metadata
      → List (ConnectionRecord Metadata) × ConnectionManager Metadata
  unfolding refresh
  list_entries [] now m = ([], m)
  list_entries ((id, addr) ∷ entries) now m =
      let refreshed = with_record addr (refresh now) m in
      let (rest_of, m') = list_entries entries now refreshed in
      (elim (get_elem? refreshed.heap addr) [ none ↦ rest_of | some r ↦ r ∷ rest_of ], m')

  -- `list`, at one reading of the clock and in one step; the source locks each record in turn
  unfoldable pub list :
      DateTime
      → ConnectionManager Metadata
      → List (ConnectionRecord Metadata) × ConnectionManager Metadata
  unfolding list_entries
  list now m = list_entries m.connections now m
