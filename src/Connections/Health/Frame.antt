-- ===== src/Connections/Health/Frame.antt =====
-- What the operations of health.rs leave alone: whose record it is, and whether it is lent out.
use nazh.Base.{ℕ, Bool, false, true, Option, ◌≡◌, ◌∙◌, arith, inl, inr, Bool-cases, ltb}
use nazh.Connections.Types.{DateTime, Message, remaining_ms, ConnectionRecord}
use nazh.Connections.Policy.{ConnectionGovernancePolicy}
use nazh.Connections.Health.{
  ConnectionOutcome, pending, success, failure, connection_failure_recorded_during_lease,
  apply_runtime_failure, refresh_definition_diagnosis, settle_outcome, release, finalize_release,
}
use nazh.Connections.Health.Reconcile.{
  end_rate_limit, end_circuit, end_backoff, settle, reconcile_timed_state,
}

-- The same connection, lent out or not as before.
pub record SameUse {M : Type 0} (r s : ConnectionRecord M) : Type 0 where
  pub id : s.id ≡ r.id
  pub kind : s.kind ≡ r.kind
  pub metadata : s.metadata ≡ r.metadata
  pub in_use : s.in_use ≡ r.in_use

module _ {M : Type 0} (p : ConnectionGovernancePolicy) where
  trans : {r s t : ConnectionRecord M} → SameUse r s → SameUse s t → SameUse r t
  trans h k = record {
    id = k.id ∙ h.id;
    kind = k.kind ∙ h.kind;
    metadata = k.metadata ∙ h.metadata;
    in_use = k.in_use ∙ h.in_use;
  }

  end_rate_limit-SameUse :
      (now : DateTime) (r : ConnectionRecord M) → SameUse r (end_rate_limit now r)
  unfolding end_rate_limit
  end_rate_limit-SameUse now r = ground arith

  end_circuit-SameUse : (now : DateTime) (r : ConnectionRecord M) → SameUse r (end_circuit now r)
  unfolding end_circuit
  end_circuit-SameUse now r = ground arith

  end_backoff-SameUse : (now : DateTime) (r : ConnectionRecord M) → SameUse r (end_backoff now r)
  unfolding end_backoff
  end_backoff-SameUse now r = ground arith

  settle-SameUse : (now : DateTime) (r : ConnectionRecord M) → SameUse r (settle p now r)
  unfolding settle
  settle-SameUse now r = ground arith

  pub reconcile_timed_state-SameUse :
      (r : ConnectionRecord M) (now : DateTime) → SameUse r (reconcile_timed_state r p now)
  unfolding reconcile_timed_state
  reconcile_timed_state-SameUse r now =
      trans (end_rate_limit-SameUse now r) (
        trans (end_circuit-SameUse now _)
          (trans (end_backoff-SameUse now _) (settle-SameUse now _)))

  pub apply_runtime_failure-SameUse :
      (r : ConnectionRecord M) (now : DateTime) (reason : Message) (is_timeout : Bool)
      → SameUse r (apply_runtime_failure r p now reason is_timeout).0
  unfolding apply_runtime_failure
  apply_runtime_failure-SameUse r now reason is_timeout = ground arith

  -- A released record is free, and still the same connection.
  pub record IsReleased (r s : ConnectionRecord M) : Type 0 where
    pub metadata : s.metadata ≡ r.metadata
    pub free : s.in_use ≡ false

  settle_outcome-SameUse :
      (outcome : ConnectionOutcome) (r : ConnectionRecord M) (borrowed_at now : DateTime) (ms : ℕ)
      → SameUse r (settle_outcome outcome r p borrowed_at now ms)
  unfolding settle_outcome
  settle_outcome-SameUse success r b now ms = ground arith
  settle_outcome-SameUse pending r b now ms = ground arith
  settle_outcome-SameUse (failure reason) r b now ms =
      elim (Bool-cases (connection_failure_recorded_during_lease r b)) [
        | inl e ↦ rw e (ground arith)
        | inr e ↦ rw e (apply_runtime_failure-SameUse r now _ false)
      ]

  pub finalize_release-IsReleased :
      (r : ConnectionRecord M) (borrowed_at : DateTime) (outcome : ConnectionOutcome)
      (now : DateTime)
      → IsReleased r (finalize_release r p borrowed_at outcome now)
  unfolding finalize_release
  finalize_release-IsReleased r b outcome now =
      let ms = remaining_ms now b in
      elim (Bool-cases (ltb p.operation_timeout_ms ms)) [
        | inl e ↦ rw e (after (apply_runtime_failure-SameUse (release r now ms) now _ true))
        | inr e ↦ rw e (after (settle_outcome-SameUse outcome (release r now ms) b now ms))
      ]
    where
      after :
          {s : ConnectionRecord M} → SameUse (release r now (remaining_ms now b)) s → IsReleased r s
      after h = record { metadata = h.metadata; free = h.in_use }

  pub refresh_definition_diagnosis-SameUse :
      (r : ConnectionRecord M) (checked : Option Message)
      → SameUse r (refresh_definition_diagnosis r checked)
  unfolding refresh_definition_diagnosis
  refresh_definition_diagnosis-SameUse r checked = ground arith
