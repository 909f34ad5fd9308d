-- ===== src/Connections/Manager/Reports/Records.antt =====
-- What each report of crates/connections/src/manager/health_ops.rs changes in the record.
use nazh.Base.{ℕ, Bool, true, false, Option, none, some, if◌then◌else◌}
use nazh.Connections.Types.{
  DateTime, Message, text, ConnectionHealthState, idle, healthy, degraded, invalid, reconnecting,
  rate_limited, circuit_open, timeout, disconnected, ConnectionHealthSnapshot, ConnectionRecord,
}

abbrev keeps_phase_on_heartbeat : ConnectionHealthState → Bool
keeps_phase_on_heartbeat invalid = true
keeps_phase_on_heartbeat circuit_open = true
keeps_phase_on_heartbeat rate_limited = true
keeps_phase_on_heartbeat _ = false

abbrev is_fault_phase : ConnectionHealthState → Bool
is_fault_phase circuit_open = true
is_fault_phase disconnected = true
is_fault_phase rate_limited = true
is_fault_phase reconnecting = true
is_fault_phase timeout = true
is_fault_phase _ = false

-- the branches of the loop body of `mark_all_idle`, by the phase and the last failure's reason
rest_health :
    ConnectionHealthState
    → Option Message
    → Message
    → DateTime
    → ConnectionHealthSnapshot
    → ConnectionHealthSnapshot
rest_health invalid reason diagnosis now health = record health {
  last_state_changed_at = some now;
  diagnosis = some (text "连接配置仍无效，运行停止后保留当前诊断");
  recommended_action = some (text "请先修正连接配置，再重新部署或测试");
}
rest_health phase reason diagnosis now health =
    let rested : ConnectionHealthSnapshot = record health {
      phase = idle;
      last_state_changed_at = some now;
      diagnosis = some diagnosis;
      recommended_action = some (text "等待下一次部署或手动测试连接");
    } in
    let kept : ConnectionHealthSnapshot = record health {
      phase = degraded;
      last_state_changed_at = some now;
      diagnosis = some (text "运行已停止，已保留最近一次故障诊断");
      recommended_action = some (text "可查看失败原因后重新部署，或先执行手动测试连接");
    } in
    elim reason [ none ↦ rested | some _ ↦ if is_fault_phase phase then kept else rested ]

module _ {M : Type 0} where
  -- the record changes of each report
  unfoldable pub connected : Message → Option ℕ → DateTime → ConnectionRecord M → ConnectionRecord M
  connected diagnosis latency_ms now r =
      let health = r.health in
      record r {
        health = record health {
          phase = healthy;
          last_state_changed_at = some now;
          last_connected_at = some now;
          last_heartbeat_at = some now;
          last_checked_at = some now;
          diagnosis = some diagnosis;
          recommended_action = some (text "连接运行中，正在等待下一次数据或调度");
          consecutive_failures = 0;
          reconnect_attempts = 0;
          next_retry_at = none;
          circuit_open_until = none;
          rate_limited_until = none;
          last_latency_ms = elim latency_ms [ none ↦ health.last_latency_ms | some ms ↦ some ms ];
        };
      }

  unfoldable pub heartbeat : Message → DateTime → ConnectionRecord M → ConnectionRecord M
  heartbeat diagnosis now r =
      let health = r.health in
      let seen : ConnectionHealthSnapshot = record health {
        last_heartbeat_at = some now;
        last_checked_at = some now;
        diagnosis = some diagnosis;
      } in
      record r {
        health = if keeps_phase_on_heartbeat health.phase then seen else record seen {
          phase = if r.in_use then healthy else degraded;
          last_state_changed_at = some now;
        };
      }

  unfoldable pub disconnect : Message → DateTime → ConnectionRecord M → ConnectionRecord M
  disconnect diagnosis now r =
      let health = r.health in
      record r {
        in_use = false;
        health = record health {
          phase = disconnected;
          last_state_changed_at = some now;
          last_checked_at = some now;
          last_released_at = some now;
          diagnosis = some diagnosis;
          recommended_action = some (text "如需恢复，请检查设备在线状态并等待重连");
        };
      }

  unfoldable pub reset_circuit : DateTime → ConnectionRecord M → ConnectionRecord M
  reset_circuit now r =
      let health = r.health in
      record r {
        health = record health {
          circuit_open_until = none;
          rate_limited_until = none;
          next_retry_at = none;
          consecutive_failures = 0;
          reconnect_attempts = 0;
          phase = idle;
          last_state_changed_at = some now;
          last_checked_at = some now;
          diagnosis = some (text "熔断器已被手动重置，连接恢复空闲态");
          recommended_action = some (text "可重新部署工作流或手动测试连接");
        };
      }

  unfoldable pub rest : Message → DateTime → ConnectionRecord M → ConnectionRecord M
  unfolding rest_health
  rest diagnosis now r =
      let health = r.health in
      let stopped : ConnectionHealthSnapshot = record health {
        last_checked_at = some now;
        last_released_at = some now;
        next_retry_at = none;
      } in
      record r {
        in_use = false;
        health = rest_health health.phase health.last_failure_reason diagnosis now stopped;
      }
