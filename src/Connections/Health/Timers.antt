-- ===== src/Connections/Health/Timers.antt =====
-- What `reconcile_timed_state` (health.rs) makes of the two deadlines that refuse an acquisition.
use nazh.Base.{Option, none, some, ◌≡◌, ◌∙◌, arith, leb, if◌then◌else◌}
use nazh.Connections.Types.{DateTime, ConnectionRecord}
use nazh.Connections.Policy.{ConnectionGovernancePolicy}
use nazh.Connections.Health.Reconcile.{
  end_rate_limit, end_circuit, end_backoff, settle, reconcile_timed_state,
}

-- a deadline, unless it has passed
abbrev pub unless_passed : DateTime → Option DateTime → Option DateTime
unless_passed now none = none
unless_passed now (some until) = if leb until now then none else some until

module _ {M : Type 0} where
  -- a step of the reconciliation that leaves both deadlines and the failures alone
  record KeepsDeadlines (r s : ConnectionRecord M) : Type 0 where
    circuit : s.health.circuit_open_until ≡ r.health.circuit_open_until
    limit : s.health.rate_limited_until ≡ r.health.rate_limited_until
    reason : s.health.last_failure_reason ≡ r.health.last_failure_reason
    count : s.health.consecutive_failures ≡ r.health.consecutive_failures

  end_backoff-Keeps :
      (now : DateTime) (r : ConnectionRecord M) → KeepsDeadlines r (end_backoff now r)
  unfolding end_backoff
  end_backoff-Keeps now r = ground arith

  settle-Keeps :
      (p : ConnectionGovernancePolicy) (now : DateTime) (r : ConnectionRecord M)
      → KeepsDeadlines r (settle p now r)
  unfolding settle
  settle-Keeps p now r = ground arith

  pub record IsReconciled (now : DateTime) (r s : ConnectionRecord M) : Type 0 where
    pub circuit : s.health.circuit_open_until ≡ unless_passed now r.health.circuit_open_until
    pub limit : s.health.rate_limited_until ≡ unless_passed now r.health.rate_limited_until
    pub reason : s.health.last_failure_reason ≡ r.health.last_failure_reason
    pub count : s.health.consecutive_failures ≡ r.health.consecutive_failures

  deadlines :
      (now : DateTime) (r : ConnectionRecord M)
      → IsReconciled now r (end_circuit now (end_rate_limit now r))
  unfolding end_rate_limit end_circuit
  deadlines now r = ground arith

  pub reconcile_timed_state-IsReconciled :
      (p : ConnectionGovernancePolicy) (now : DateTime) (r : ConnectionRecord M)
      → IsReconciled now r (reconcile_timed_state r p now)
  unfolding reconcile_timed_state
  reconcile_timed_state-IsReconciled p now r =
      let d = deadlines now r in
      let b = end_backoff-Keeps now (end_circuit now (end_rate_limit now r)) in
      let s = settle-Keeps p now (end_backoff now (end_circuit now (end_rate_limit now r))) in
      record {
        circuit = s.circuit ∙ b.circuit ∙ d.circuit;
        limit = s.limit ∙ b.limit ∙ d.limit;
        reason = s.reason ∙ b.reason ∙ d.reason;
        count = s.count ∙ b.count ∙ d.count;
      }
