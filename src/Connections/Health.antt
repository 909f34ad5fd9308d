-- ===== src/Connections/Health.antt =====
-- crates/connections/src/health.rs: how a connection's record changes when a lease ends, a failure is
-- recorded or time passes. `Utc::now()` is an argument.
pub mod Reconcile
pub mod Invariant
pub mod Frame
pub mod Timers
pub mod Circuit
use nazh.Base.{
  ℕ, ◌+◌, ◌-◌, ◌*◌, ◌/◌, ◌≤◌, min, max, Bool, true, false, Option, none, some, String, leb, ltb,
  not, ◌&&◌, if◌then◌else◌, bump_u32,
}
use nazh.Connections.Types.{
  DateTime, Message, text, held_too_long, released_after, heartbeat_silent, is_empty, duration_ms,
  remaining_ms, ConnectionHealthState, idle, connecting, healthy, degraded, invalid, reconnecting,
  rate_limited, circuit_open, timeout, disconnected, ConnectionHealthSnapshot, ConnectionRecord,
}
use nazh.Connections.Policy.{ConnectionGovernancePolicy, reconnect_delay_ms}

pub data ConnectionOutcome : Type 0 where
  pending success : ConnectionOutcome
  failure : Message → ConnectionOutcome

abbrev pub is_rate_limited : ConnectionHealthState → Bool
is_rate_limited rate_limited = true
is_rate_limited _ = false

abbrev pub is_circuit_open : ConnectionHealthState → Bool
is_circuit_open circuit_open = true
is_circuit_open _ = false

abbrev pub is_backing_off : ConnectionHealthState → Bool
is_backing_off reconnecting = true
is_backing_off timeout = true
is_backing_off _ = false

abbrev pub is_connecting : ConnectionHealthState → Bool
is_connecting connecting = true
is_connecting _ = false

abbrev pub is_healthy : ConnectionHealthState → Bool
is_healthy healthy = true
is_healthy _ = false

-- the phases that `apply_runtime_failure` sets
abbrev pub is_failed_phase : ConnectionHealthState → Bool
is_failed_phase reconnecting = true
is_failed_phase circuit_open = true
is_failed_phase timeout = true
is_failed_phase _ = false

failed_since : DateTime → Option DateTime → Bool
failed_since borrowed_at none = false
failed_since borrowed_at (some at) = leb borrowed_at at

module _ {M : Type 0} where
  unfoldable pub apply_runtime_failure :
      ConnectionRecord M
      → ConnectionGovernancePolicy
      → DateTime
      → Message
      → Bool
      → ConnectionRecord M × ℕ
  unfolding reconnect_delay_ms
  apply_runtime_failure r policy now reason is_timeout =
      let health = r.health in
      let counted : ConnectionHealthSnapshot = record health {
        total_failures = bump_u32 health.total_failures;
        consecutive_failures = bump_u32 health.consecutive_failures;
        reconnect_attempts = bump_u32 health.reconnect_attempts;
        timeout_count = if is_timeout then bump_u32 health.timeout_count else health.timeout_count;
        last_failure_at = some now;
        last_checked_at = some now;
        last_state_changed_at = some now;
        last_failure_reason = some reason;
      } in
      let open_until = now + duration_ms policy.circuit_open_ms in
      let retry_after_ms = reconnect_delay_ms policy counted.reconnect_attempts in
      if leb policy.circuit_failure_threshold counted.consecutive_failures
      then (
        record r {
          health = record counted {
            phase = circuit_open;
            circuit_open_until = some open_until;
            next_retry_at = some open_until;
            diagnosis = some (text "连接连续失败，已进入熔断保护");
            recommended_action = some (text "请检查目标端可达性、串口占用或参数配置，冷却结束后会再次允许建连");
          };
        },
        policy.circuit_open_ms,
      )
      else (
        record r {
          health = record counted {
            phase = if is_timeout then timeout else reconnecting;
            next_retry_at = some (now + duration_ms retry_after_ms);
            circuit_open_until = none;
            diagnosis = some (if is_timeout then text "连接心跳或操作超时，准备重连" else text "连接失败，准备按退避策略重连");
            recommended_action = some (text "如持续失败，请检查设备在线状态、网络链路或端口占用");
          };
        },
        retry_after_ms,
      )

  unfoldable pub mark_invalid : ConnectionRecord M → Message → DateTime → ConnectionRecord M
  mark_invalid r reason now =
      let health = r.health in
      record r {
        in_use = false;
        health = record health {
          phase = invalid;
          last_state_changed_at = some now;
          last_checked_at = some now;
          last_failure_at = some now;
          last_failure_reason = some reason;
          diagnosis = some (text "连接配置无效，已拒绝本次建连");
          recommended_action = some (text "请先修正连接资源配置再重新部署");
        };
      }

  unfoldable pub connection_failure_recorded_during_lease : ConnectionRecord M → DateTime → Bool
  unfolding failed_since
  connection_failure_recorded_during_lease r borrowed_at =
      is_failed_phase r.health.phase && failed_since borrowed_at r.health.last_failure_at

  -- the `match outcome` of `finalize_release`
  settle_outcome :
      ConnectionOutcome
      → ConnectionRecord M
      → ConnectionGovernancePolicy
      → DateTime
      → DateTime
      → ℕ
      → ConnectionRecord M
  unfolding connection_failure_recorded_during_lease
  settle_outcome success r policy borrowed_at now elapsed_ms =
      let health = r.health in
      record r {
        health = record health {
          phase = healthy;
          last_state_changed_at = some now;
          last_connected_at = some now;
          last_heartbeat_at = some now;
          diagnosis = some (released_after elapsed_ms);
          recommended_action = some (text "连接空闲，可继续被节点复用");
          consecutive_failures = 0;
          reconnect_attempts = 0;
          next_retry_at = none;
          rate_limited_until = none;
          circuit_open_until = none;
        };
      }
  settle_outcome (failure reason) r policy borrowed_at now elapsed_ms =
      let failure_reason = if is_empty reason then text "连接操作失败，节点未提供具体原因" else reason in
      let failed = (apply_runtime_failure r policy now failure_reason false).0 in
      if connection_failure_recorded_during_lease r borrowed_at then r else failed
  settle_outcome pending r policy borrowed_at now elapsed_ms =
      let health = r.health in
      record r {
        health = record health {
          phase = degraded;
          last_state_changed_at = some now;
          diagnosis = some (text "连接 Guard 未标记结果即被丢弃（可能为 panic 退出）");
          recommended_action = some (text "检查节点执行路径是否在所有分支都调用了 mark_success/mark_failure");
        };
      }

  -- the fields that `finalize_release` sets on every path
  release : ConnectionRecord M → DateTime → ℕ → ConnectionRecord M
  release r now elapsed_ms =
      let health = r.health in
      record r {
        in_use = false;
        health = record health {
          last_released_at = some now;
          last_checked_at = some now;
          last_latency_ms = some elapsed_ms;
        };
      }

  -- `policy` is the one that the source reads from the record's metadata
  unfoldable pub finalize_release :
      ConnectionRecord M
      → ConnectionGovernancePolicy
      → DateTime
      → ConnectionOutcome
      → DateTime
      → ConnectionRecord M
  unfolding settle_outcome release
  finalize_release r policy borrowed_at outcome now =
      let elapsed_ms = remaining_ms now borrowed_at in
      let released = release r now elapsed_ms in
      let timeout_reason = held_too_long elapsed_ms policy.operation_timeout_ms in
      if ltb policy.operation_timeout_ms elapsed_ms
      then (apply_runtime_failure released policy now timeout_reason true).0
      else settle_outcome outcome released policy borrowed_at now elapsed_ms

  -- `checked` is what `validate_connection_definition` says: the reason, if it refuses
  unfoldable pub refresh_definition_diagnosis :
      ConnectionRecord M → Option Message → ConnectionRecord M
  refresh_definition_diagnosis r none =
      let health = r.health in
      record r {
        health = record health {
          phase = idle;
          diagnosis = some (text "连接配置已就绪，等待建连");
          recommended_action = some (text "可部署工作流、触发节点或执行测试连接");
        };
      }
  refresh_definition_diagnosis r (some reason) =
      let health = r.health in
      record r {
        health = record health {
          phase = invalid;
          diagnosis = some (text "连接配置缺失或格式无效");
          recommended_action = some (text "请在连接设置中补齐必填参数后再运行");
          last_failure_reason = some reason;
        };
      }
