-- ===== src/Connections/Manager/Acquire.antt =====
-- `acquire` and `register_attempt` of crates/connections/src/manager/mod.rs, and the release by the
-- guard's `Drop` (guard.rs).
pub mod Cases
pub mod Deadlines
pub mod Window
use nazh.Base.{
  ℕ, ◌+◌, ◌-◌, ◌<◌, Bool, true, false, Option, none, some, String, List, [], ◌∷◌, ◌++◌, map, leb,
  ltb, ◌||◌, if◌then◌else◌, length, get_elem?, set, Dict, lookup, insert, contains_key, bump_u32,
}
use nazh.Connections.Types.{
  DateTime, Message, text, duration_ms, remaining_ms, ConnectionHealthState, idle, connecting,
  reconnecting, rate_limited, ConnectionHealthSnapshot, default_health, ConnectionDefinition,
  ConnectionLease, ConnectionRecord,
}
use nazh.Connections.Policy.{ConnectionGovernancePolicy}
use nazh.Connections.Health.{
  ConnectionOutcome, pending, success, failure, finalize_release, mark_invalid,
  refresh_definition_diagnosis,
}
use nazh.Connections.Health.Reconcile.{reconcile_timed_state}
use nazh.Connections.Governance.{Governance}
use nazh.Connections.Manager.State.{
  EngineError, connection_invalid_configuration, connection_not_found, connection_busy,
  connection_circuit_open, connection_rate_limited, Result, ok, err, ConnectionManager,
  ConnectionGuard, new_guard, entry, with_record,
}

-- the `while` loop of `register_attempt`
unfoldable pub expire : DateTime → List DateTime → List DateTime
expire cutoff [] = []
expire cutoff (attempted_at ∷ attempts) =
    let rest = expire cutoff attempts in
    if ltb attempted_at cutoff then rest else attempted_at ∷ attempts

-- `register_attempt` on one window: what it returns (the cooldown, if refused) and the new window. The
-- cutoff stops at 0, where the source has a negative time, which keeps the same attempts, or panics, if
-- the window exceeds chrono's range.
unfoldable pub register_attempt :
    ConnectionGovernancePolicy → DateTime → List DateTime → Option ℕ × List DateTime
unfolding expire
register_attempt policy now attempts =
    let kept = expire (now - duration_ms policy.rate_limit_window_ms) attempts in
    if leb policy.rate_limit_max_attempts (length kept)
    then (some policy.rate_limit_cooldown_ms, kept)
    else (none, kept ++ now ∷ [])

-- a deadline that still lies ahead
unfoldable pub ahead : Option DateTime → DateTime → Option DateTime
ahead none now = none
ahead (some until) now = if ltb now until then some until else none

module _ (G : Governance) where
  open G use {Metadata, policy, validate}

  -- `build_record`
  unfoldable pub build_record : ConnectionDefinition Metadata → ConnectionRecord Metadata
  unfolding refresh_definition_diagnosis
  build_record d =
      refresh_definition_diagnosis
        (record {
          id = d.id;
          kind = d.kind;
          metadata = d.metadata;
          in_use = false;
          last_borrowed_at = none;
          health = default_health;
        })
        (validate d.kind d.metadata)

  -- `acquire` from the admission of the attempt on: the record is lent
  lend : DateTime → ConnectionRecord Metadata → ConnectionLease Metadata × ConnectionRecord Metadata
  lend now r =
      let health = r.health in
      let again = ltb 0 health.consecutive_failures in
      (
        record { id = r.id; kind = r.kind; metadata = r.metadata; borrowed_at = now },
        record r {
          in_use = true;
          last_borrowed_at = some now;
          health = record health {
            phase = if again then reconnecting else connecting;
            last_state_changed_at = some now;
            last_checked_at = some now;
            diagnosis = some (if again then text "正在重建连接会话" else text "正在建立连接会话");
            recommended_action = some (text "连接已被运行态占用，完成后会自动释放");
          };
        },
      )

  -- the refusal of an attempt by the rate limit
  limit_rate : ℕ → DateTime → ConnectionRecord Metadata → ConnectionRecord Metadata
  limit_rate retry_after_ms now r =
      let health = r.health in
      record r {
        health = record health {
          rate_limit_hits = bump_u32 health.rate_limit_hits;
          rate_limited_until = some (now + duration_ms retry_after_ms);
          phase = rate_limited;
          last_state_changed_at = some now;
          last_checked_at = some now;
          diagnosis = some (text "短时间内建连次数过多，已进入限流保护");
          recommended_action = some (text "等待冷却结束后重试，或降低节点触发频率");
        };
      }

  -- What an acquisition leaves behind: its result, the record and the window of attempts (`none`
  -- where the source does not touch the window).
  pub record Acquisition : Type 0 where
    pub result : Result (ConnectionLease Metadata)
    pub record_after : ConnectionRecord Metadata
    pub window_after : Option (List DateTime)

  admit : String → DateTime → List DateTime → ConnectionRecord Metadata → Acquisition
  unfolding lend limit_rate
  admit id now window r =
      let (refused, kept) = register_attempt (policy r.metadata) now window in
      elim refused [
        | none ↦
            let (lease, lent) = lend now r in
            record { result = ok lease; record_after = lent; window_after = some kept }
        | some retry_after_ms ↦ record {
          result = err (connection_rate_limited id retry_after_ms);
          record_after = limit_rate retry_after_ms now r;
          window_after = some kept;
        }
      ]

  reason_of : Option Message → Message
  reason_of none = text "连接仍处于熔断冷却期"
  reason_of (some reason) = reason

  -- the guards of `acquire` behind the check of the definition
  pass_deadlines : String → DateTime → List DateTime → ConnectionRecord Metadata → Acquisition
  unfolding admit reason_of
  pass_deadlines id now window r = elim (ahead r.health.circuit_open_until now) [
    | some until ↦ record {
      result = err (
          connection_circuit_open id (remaining_ms until now)
            (reason_of r.health.last_failure_reason));
      record_after = r;
      window_after = none;
    }
    | none ↦ elim (ahead r.health.rate_limited_until now) [
      | some until ↦ record {
        result = err (connection_rate_limited id (remaining_ms until now));
        record_after = r;
        window_after = none;
      }
      | none ↦ admit id now window r
    ]
  ]

  check_definition :
      Option Message → String → DateTime → List DateTime → ConnectionRecord Metadata → Acquisition
  unfolding pass_deadlines
  check_definition (some reason) id now window r = record {
    result = err (connection_invalid_configuration id reason);
    record_after = mark_invalid r reason now;
    window_after = none;
  }
  check_definition none id now window r = pass_deadlines id now window r

  -- `acquire`, on the record behind its lock
  unfoldable pub acquire_record :
      String → DateTime → List DateTime → ConnectionRecord Metadata → Acquisition
  unfolding check_definition
  acquire_record id now window r =
      let current = reconcile_timed_state r (policy r.metadata) now in
      if current.in_use
      then record { result = err (connection_busy id); record_after = current; window_after = none }
      else check_definition (validate current.kind current.metadata) id now window current

  unfoldable pub window_of : String → ConnectionManager Metadata → List DateTime
  window_of id m = elim (lookup id m.attempt_windows) [ none ↦ [] | some window ↦ window ]

  abbrev keep_window : String → Option (List DateTime) → Dict (List DateTime) → Dict (List DateTime)
  keep_window id none windows = windows
  keep_window id (some window) windows = insert id window windows

  abbrev pub guard_of : ℕ → Result (ConnectionLease Metadata) → Result (ConnectionGuard Metadata)
  guard_of addr (ok lease) = ok (new_guard lease addr)
  guard_of addr (err e) = err e

  -- `acquire` once its entry is known: between the two another task may have moved the name
  unfoldable pub acquire_at :
      String
      → ℕ
      → DateTime
      → ConnectionManager Metadata
      → Result (ConnectionGuard Metadata) × ConnectionManager Metadata
  unfolding window_of
  acquire_at id addr now m = elim (get_elem? m.heap addr) [
    | none ↦ (err (connection_not_found id), m)
    | some r ↦
        let a = acquire_record id now (window_of id m) r in
        (
          guard_of addr a.result,
          record m {
            heap = set m.heap addr a.record_after;
            attempt_windows = keep_window id a.window_after m.attempt_windows;
          },
        )
  ]

  unfoldable pub acquire :
      String
      → DateTime
      → ConnectionManager Metadata
      → Result (ConnectionGuard Metadata) × ConnectionManager Metadata
  acquire id now m = elim (entry id m) [
    | none ↦ (err (connection_not_found id), m)
    | some addr ↦ acquire_at id addr now m
  ]

  -- `ConnectionGuard::drop`
  unfoldable pub drop_guard :
      ConnectionGuard Metadata → DateTime → ConnectionManager Metadata → ConnectionManager Metadata
  drop_guard g now m =
      with_record g.entry
        (λ r. finalize_release r (policy r.metadata) g.lease.borrowed_at g.outcome now) m
