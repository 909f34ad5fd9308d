-- ===== src/Connections/Manager/System.antt =====
-- The manager together with the guards that are out: one operation of crates/connections at a time, in
-- any order. `acquire` takes the address that its task has looked up, so another task's operation may
-- lie between the lookup and the lock.
pub mod Heap
pub mod Changes
pub mod Operations
pub mod Sound
pub mod Exclusive
pub mod Forced
use nazh.Base.{
  ℕ, zero, suc, Bool, true, false, Option, none, some, String, List, [], ◌∷◌, get_elem?, set,
}
use nazh.Connections.Types.{DateTime, Message, ConnectionDefinition}
use nazh.Connections.Governance.{Governance}
use nazh.Connections.Manager.State.{
  Result, ok, err, ConnectionManager, ConnectionGuard, empty, mark_success, mark_failure,
}
use nazh.Connections.Manager.Acquire.{acquire_at, drop_guard}
use nazh.Connections.Manager.Pool.{
  register_connection, upsert_connection, upsert_connections, replace_connections,
}
use nazh.Connections.Manager.Reports.{
  record_connect_success, record_heartbeat, record_connect_failure, record_timeout,
  mark_invalid_configuration, mark_disconnected, reset_circuit_breaker, mark_all_idle, get, list,
}

pub record System (M : Type 0) : Type 0 where
  pub manager : ConnectionManager M
  pub guards : List (ConnectionGuard M)

pub data Op (M : Type 0) : Type 0 where
  acquire : String → ℕ → DateTime → Op M
  drop : ℕ → DateTime → Op M
  succeed : ℕ → Op M
  fail : ℕ → Message → Op M
  register upsert : ConnectionDefinition M → Op M
  upsert_all replace : List (ConnectionDefinition M) → Op M
  connect_success : String → Message → Option ℕ → DateTime → Op M
  heartbeat connect_failure timeout : String → Message → DateTime → Op M
  invalidate disconnect : String → Message → DateTime → Op M
  reset_circuit : String → DateTime → Op M
  all_idle : Message → DateTime → Op M
  snapshot : String → DateTime → Op M
  snapshots : DateTime → Op M

-- The operations that clear `in_use` while a guard may be out.
abbrev pub is_forced : {M : Type 0} → Op M → Bool
is_forced (invalidate _ _ _) = true
is_forced (disconnect _ _ _) = true
is_forced (all_idle _ _) = true
is_forced _ = false

-- The operations that hand no guard out and take none back.
abbrev pub is_report : {M : Type 0} → Op M → Bool
is_report (acquire _ _ _) = false
is_report (drop _ _) = false
is_report _ = true

abbrev pub remove_at {ℓ} : {A : Type ℓ} → List A → ℕ → List A
remove_at [] i = []
remove_at (x ∷ xs) zero = xs
remove_at (x ∷ xs) (suc i) = x ∷ remove_at xs i

abbrev pub update_at {ℓ} : {A : Type ℓ} → (A → A) → List A → ℕ → List A
update_at f [] i = []
update_at f (x ∷ xs) zero = f x ∷ xs
update_at f (x ∷ xs) (suc i) = x ∷ update_at f xs i

module _ (G : Governance) where
  open G use {Metadata}

  abbrev pub hand_out :
      Result (ConnectionGuard Metadata)
      → List (ConnectionGuard Metadata)
      → List (ConnectionGuard Metadata)
  hand_out (ok g) guards = g ∷ guards
  hand_out (err _) guards = guards

  abbrev with_manager : System Metadata → ConnectionManager Metadata → System Metadata
  with_manager s m = record s { manager = m }

  unfoldable pub run : Op Metadata → System Metadata → System Metadata
  run (acquire id addr now) s =
      let (result, m) = acquire_at G id addr now s.manager in
      record { manager = m; guards = hand_out result s.guards }
  run (drop i now) s = elim (get_elem? s.guards i) [
    | none ↦ s
    | some g ↦ record { manager = drop_guard G g now s.manager; guards = remove_at s.guards i }
  ]
  run (succeed i) s = record s { guards = update_at mark_success s.guards i }
  run (fail i reason) s = record s { guards = update_at (mark_failure reason) s.guards i }
  run (register d) s = with_manager s (register_connection G d s.manager).1
  run (upsert d) s = with_manager s (upsert_connection G d s.manager).1
  run (upsert_all ds) s = with_manager s (upsert_connections G ds s.manager).1
  run (replace ds) s = with_manager s (replace_connections G ds s.manager).1
  run (connect_success id diagnosis ms now) s =
      with_manager s (record_connect_success id diagnosis ms now s.manager).1
  run (heartbeat id diagnosis now) s =
      with_manager s (record_heartbeat id diagnosis now s.manager).1
  run (connect_failure id reason now) s =
      with_manager s (record_connect_failure G id reason now s.manager).1
  run (timeout id reason now) s = with_manager s (record_timeout G id reason now s.manager).1
  run (invalidate id reason now) s =
      with_manager s (mark_invalid_configuration id reason now s.manager).1
  run (disconnect id diagnosis now) s =
      with_manager s (mark_disconnected id diagnosis now s.manager).1
  run (reset_circuit id now) s = with_manager s (reset_circuit_breaker id now s.manager).1
  run (all_idle diagnosis now) s = with_manager s (mark_all_idle diagnosis now s.manager)
  run (snapshot id now) s = with_manager s (get G id now s.manager).1
  run (snapshots now) s = with_manager s (list G now s.manager).1

  unfoldable pub run_all : List (Op Metadata) → System Metadata → System Metadata
  unfolding run
  run_all [] s = s
  run_all (op ∷ ops) s = run_all ops (run op s)

  abbrev pub start : System Metadata
  start = record { manager = empty; guards = [] }
