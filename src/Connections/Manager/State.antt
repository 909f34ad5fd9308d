-- ===== src/Connections/Manager/State.antt =====
-- The manager's state, crates/connections/src/manager/mod.rs and guard.rs. A record stands behind an
-- `Arc<Mutex<_>>`: `heap` holds the records by address, `connections` maps a name to an address, and a
-- guard keeps the address that it borrowed, also when the name has moved on.
use nazh.Base.{
  ℕ, Bool, false, Option, none, some, String, List, [], ◌∷◌, ◌++◌, length, get_elem?, set, Dict,
  lookup, insert,
}
use nazh.Connections.Types.{DateTime, Message, ConnectionLease, ConnectionRecord}
use nazh.Connections.Health.{ConnectionOutcome, pending, success, failure}

-- the variants of `EngineError` that the manager returns
pub data EngineError : Type 0 where
  connection_already_exists : String → EngineError
  connection_invalid_configuration : String → Message → EngineError
  connection_not_found : String → EngineError
  connection_busy : String → EngineError
  connection_circuit_open : String → ℕ → Message → EngineError
  connection_rate_limited : String → ℕ → EngineError

pub data Result (A : Type 0) : Type 0 where
  ok : A → Result A
  err : EngineError → Result A

-- `Arc<dyn Any>`: the type of the session that it holds, and which one it is
pub record Session : Type 0 where
  pub type_id : ℕ
  pub address : ℕ

pub record ConnectionManager (M : Type 0) : Type 0 where
  pub heap : List (ConnectionRecord M)
  pub connections : Dict ℕ
  pub attempt_windows : Dict (List DateTime)
  pub shared_sessions : Dict Session

pub record ConnectionGuard (M : Type 0) : Type 0 where
  pub lease : ConnectionLease M
  pub entry : ℕ
  pub outcome : ConnectionOutcome

blank_windows : List String → Dict (List DateTime) → Dict (List DateTime)
blank_windows [] windows = windows
blank_windows (id ∷ ids) windows = blank_windows ids (insert id [] windows)

module _ {M : Type 0} where
  -- `ConnectionManager::default`
  abbrev pub empty : ConnectionManager M
  empty = record { heap = []; connections = []; attempt_windows = []; shared_sessions = [] }

  -- `ConnectionGuard::new`, `mark_success`, `mark_failure`
  abbrev pub new_guard : ConnectionLease M → ℕ → ConnectionGuard M
  new_guard lease entry = record { lease = lease; entry = entry; outcome = pending }

  unfoldable pub mark_success : ConnectionGuard M → ConnectionGuard M
  mark_success g = record g { outcome = success }

  unfoldable pub mark_failure : Message → ConnectionGuard M → ConnectionGuard M
  mark_failure reason g = record g { outcome = failure reason }

  -- `self.connections.get(id).cloned()`
  unfoldable pub entry : String → ConnectionManager M → Option ℕ
  entry id m = lookup id m.connections

  -- the record behind an address, changed under its lock
  unfoldable pub with_record :
      ℕ → (ConnectionRecord M → ConnectionRecord M) → ConnectionManager M → ConnectionManager M
  with_record addr f m = elim (get_elem? m.heap addr) [
    | none ↦ m
    | some r ↦ record m { heap = set m.heap addr (f r) }
  ]

  -- `Arc::new(Mutex::new(record))`, put under its name
  unfoldable pub put_record :
      String → ConnectionRecord M → ConnectionManager M → ConnectionManager M
  put_record id r m = record m {
    heap = m.heap ++ r ∷ [];
    connections = insert id (length m.heap) m.connections;
  }

  abbrev in_use_at : ConnectionManager M → Option ℕ → Bool
  in_use_at m none = false
  in_use_at m (some addr) = elim (get_elem? m.heap addr) [ none ↦ false | some r ↦ r.in_use ]

  -- `connections.get(id).is_some_and(connection_record_in_use)`
  unfoldable pub connection_record_in_use : ConnectionManager M → String → Bool
  connection_record_in_use m id = in_use_at m (lookup id m.connections)

  unfoldable pub reset_attempt_window : String → ConnectionManager M → ConnectionManager M
  reset_attempt_window id m = record m { attempt_windows = insert id [] m.attempt_windows }

  -- the whole table is replaced, as in the source
  unfoldable pub reset_attempt_windows : List String → ConnectionManager M → ConnectionManager M
  unfolding blank_windows
  reset_attempt_windows ids m = record m { attempt_windows = blank_windows ids [] }
