-- ===== src/Connections/Health/Invariant.antt =====
-- What holds of a connection's health between any two operations of health.rs.
use nazh.Base.{
  ℕ, Bool-cases, inl, inr, ltb, false, true, ◌≤◌, ◌≡◌, ◌≢◌, ◌⊎◌, Bool, Option, none, arith, u32_max,
  bump_u32,
}
use nazh.Connections.Types.{
  DateTime, Message, remaining_ms, circuit_open, rate_limited, ConnectionHealthSnapshot,
  default_health, ConnectionRecord,
}
use nazh.Connections.Policy.{ConnectionGovernancePolicy}
use nazh.Connections.Health.{
  ConnectionOutcome, connection_failure_recorded_during_lease, pending, success, failure,
  apply_runtime_failure, mark_invalid, settle_outcome, release, finalize_release,
  refresh_definition_diagnosis,
}
use nazh.Connections.Health.Reconcile.{
  end_rate_limit, end_circuit, end_backoff, settle, reconcile_timed_state,
}

-- The counters agree with one another and fit `u32`; an open circuit and a rate limit have a
-- deadline, and a circuit opens no earlier than at the policy's threshold.
pub record IsConsistent (p : ConnectionGovernancePolicy) (h : ConnectionHealthSnapshot)
    : Type 0 where
  pub reconnects_counted : h.reconnect_attempts ≡ h.consecutive_failures
  pub failures_counted : h.consecutive_failures ≤ h.total_failures
  pub timeouts_counted : h.timeout_count ≤ h.total_failures
  pub totals_fit : h.total_failures ≤ u32_max
  pub hits_fit : h.rate_limit_hits ≤ u32_max
  pub open_circuit :
      (h.phase ≢ circuit_open)
      ⊎ ((h.circuit_open_until ≢ none) × (p.circuit_failure_threshold ≤ h.consecutive_failures))
  pub rate_limit : (h.phase ≢ rate_limited) ⊎ (h.rate_limited_until ≢ none)

pub default-IsConsistent : (p : ConnectionGovernancePolicy) → IsConsistent p default_health
default-IsConsistent p = ground arith

module _ {M : Type 0} {p : ConnectionGovernancePolicy} (r : ConnectionRecord M)
    (c : IsConsistent p r.health) where
  pub apply_runtime_failure-IsConsistent :
      (now : DateTime) (reason : Message) (is_timeout : Bool)
      → IsConsistent p (apply_runtime_failure r p now reason is_timeout).0.health
  unfolding apply_runtime_failure bump_u32
  apply_runtime_failure-IsConsistent now reason is_timeout = ground arith

  pub mark_invalid-IsConsistent :
      (reason : Message) (now : DateTime) → IsConsistent p (mark_invalid r reason now).health
  unfolding mark_invalid
  mark_invalid-IsConsistent reason now = ground arith

  end_rate_limit-IsConsistent : (now : DateTime) → IsConsistent p (end_rate_limit now r).health
  unfolding end_rate_limit
  end_rate_limit-IsConsistent now = ground arith

  end_circuit-IsConsistent : (now : DateTime) → IsConsistent p (end_circuit now r).health
  unfolding end_circuit
  end_circuit-IsConsistent now = ground arith

  end_backoff-IsConsistent : (now : DateTime) → IsConsistent p (end_backoff now r).health
  unfolding end_backoff
  end_backoff-IsConsistent now = ground arith

  settle-IsConsistent : (now : DateTime) → IsConsistent p (settle p now r).health
  unfolding settle
  settle-IsConsistent now = ground arith

  pub refresh_definition_diagnosis-IsConsistent :
      (checked : Option Message) → IsConsistent p (refresh_definition_diagnosis r checked).health
  unfolding refresh_definition_diagnosis
  refresh_definition_diagnosis-IsConsistent checked = ground arith

module _ {M : Type 0} {p : ConnectionGovernancePolicy} where
  -- Letting time pass keeps the counters and the deadlines consistent, whatever the record.
  pub reconcile_timed_state-IsConsistent :
      (r : ConnectionRecord M) (now : DateTime)
      → IsConsistent p r.health
      → IsConsistent p (reconcile_timed_state r p now).health
  unfolding reconcile_timed_state
  reconcile_timed_state-IsConsistent r now c =
      settle-IsConsistent _
        (end_backoff-IsConsistent _
          (end_circuit-IsConsistent _ (end_rate_limit-IsConsistent r c now) now) now)
        now

  settle_outcome-IsConsistent :
      (outcome : ConnectionOutcome) (r : ConnectionRecord M) (borrowed_at now : DateTime) (ms : ℕ)
      → IsConsistent p r.health
      → IsConsistent p (settle_outcome outcome r p borrowed_at now ms).health
  unfolding settle_outcome
  settle_outcome-IsConsistent success r b now ms c = ground arith
  settle_outcome-IsConsistent pending r b now ms c = ground arith
  settle_outcome-IsConsistent (failure reason) r b now ms c =
      elim (Bool-cases (connection_failure_recorded_during_lease r b)) [
        | inl e ↦ rw e c
        | inr e ↦ rw e (apply_runtime_failure-IsConsistent r c now _ false)
      ]

  -- The end of a lease keeps the counters and the deadlines consistent, whatever the outcome and
  -- however long the lease was held.
  pub finalize_release-IsConsistent :
      (r : ConnectionRecord M) (borrowed_at : DateTime) (outcome : ConnectionOutcome)
      (now : DateTime)
      → IsConsistent p r.health
      → IsConsistent p (finalize_release r p borrowed_at outcome now).health
  unfolding finalize_release
  finalize_release-IsConsistent r b outcome now c =
      let ms = remaining_ms now b in
      let c' : IsConsistent p (release r now ms).health = ground arith in
      elim (Bool-cases (ltb p.operation_timeout_ms ms)) [
        | inl e ↦ rw e (apply_runtime_failure-IsConsistent _ c' now _ true)
        | inr e ↦ rw e (settle_outcome-IsConsistent outcome _ b now ms c')
      ]
