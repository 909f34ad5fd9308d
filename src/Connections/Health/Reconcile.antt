-- ===== src/Connections/Health/Reconcile.antt =====
-- `reconcile_timed_state` of crates/connections/src/health.rs: what passing time changes.
use nazh.Base.{none, some, leb, ltb, not, ◌&&◌, if◌then◌else◌}
use nazh.Connections.Types.{
  DateTime, text, heartbeat_silent, remaining_ms, idle, degraded, ConnectionRecord,
}
use nazh.Connections.Policy.{ConnectionGovernancePolicy}
use nazh.Connections.Health.{
  is_rate_limited, is_circuit_open, is_backing_off, is_connecting, is_healthy,
}

module _ {M : Type 0} where
  -- the four steps of `reconcile_timed_state`: the rate limit window
  unfoldable pub end_rate_limit : DateTime → ConnectionRecord M → ConnectionRecord M
  end_rate_limit now r =
      let health = r.health in
      elim health.rate_limited_until [
        | none ↦ r
        | some until ↦
            if leb until now
            then record r {
              health =
                  if is_rate_limited health.phase
                  then record health {
                    rate_limited_until = none;
                    phase = idle;
                    last_state_changed_at = some now;
                    diagnosis = some (text "限流窗口已结束，可再次尝试建连");
                    recommended_action = some (text "如仍然频繁触发，请调整节点节流策略");
                  }
                  else record health { rate_limited_until = none };
            }
            else r
      ]

  -- the circuit breaker's cooldown
  unfoldable pub end_circuit : DateTime → ConnectionRecord M → ConnectionRecord M
  end_circuit now r =
      let health = r.health in
      elim health.circuit_open_until [
        | none ↦ r
        | some until ↦
            if leb until now
            then record r {
              health =
                  if is_circuit_open health.phase
                  then record health {
                    circuit_open_until = none;
                    phase = idle;
                    last_state_changed_at = some now;
                    diagnosis = some (text "熔断冷却结束，可重新尝试建连");
                    recommended_action = some (text "建议优先检查最近一次失败原因后再重试");
                  }
                  else record health { circuit_open_until = none };
            }
            else r
      ]

  -- the backoff
  unfoldable pub end_backoff : DateTime → ConnectionRecord M → ConnectionRecord M
  end_backoff now r =
      let health = r.health in
      elim health.next_retry_at [
        | none ↦ r
        | some at ↦
            if leb at now && is_backing_off health.phase && not r.in_use
            then record r {
              health = record health {
                next_retry_at = none;
                phase = idle;
                last_state_changed_at = some now;
                diagnosis = some (text "已结束退避等待，可再次尝试建连");
                recommended_action = some (text "若仍失败，请检查目标端是否可达");
              };
            }
            else r
      ]

  unfoldable pub silence :
      ConnectionGovernancePolicy → DateTime → ConnectionRecord M → ConnectionRecord M
  silence policy now r =
      let health = r.health in
      elim health.last_heartbeat_at [
        | none ↦ r
        | some beat ↦
            let heartbeat_age_ms = remaining_ms now beat in
            if ltb policy.heartbeat_timeout_ms heartbeat_age_ms && is_healthy health.phase
            then record r {
              health = record health {
                phase = degraded;
                last_state_changed_at = some now;
                diagnosis = some (heartbeat_silent heartbeat_age_ms policy.heartbeat_timeout_ms);
                recommended_action = some (text "可尝试重连或检查对端设备在线状态");
              };
            }
            else r
      ]

  -- a connection that nobody holds
  unfoldable pub settle :
      ConnectionGovernancePolicy → DateTime → ConnectionRecord M → ConnectionRecord M
  unfolding silence
  settle policy now r =
      let health = r.health in
      let stopped =
        if is_connecting health.phase
        then record r { health = record health { phase = idle; last_state_changed_at = some now } }
        else r in
      if r.in_use then r else silence policy now stopped

  unfoldable pub reconcile_timed_state :
      ConnectionRecord M → ConnectionGovernancePolicy → DateTime → ConnectionRecord M
  unfolding end_rate_limit end_circuit end_backoff settle
  reconcile_timed_state r policy now =
      settle policy now (end_backoff now (end_circuit now (end_rate_limit now r)))
