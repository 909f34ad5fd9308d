-- ===== src/Connections/Types.antt =====
-- The records of crates/connections/src/types.rs, and the clock.
-- A `DateTime<Utc>` is a count of nanoseconds; a record's metadata is of the type `M`.
use nazh.Base.{ℕ, ◌-◌, ◌*◌, ◌/◌, min, String, Bool, false, Option, none, some, i64_max, str_eq}

abbrev pub DateTime : Type 0
DateTime = ℕ

-- Texts that the program formats keep their arguments.
pub data Message : Type 0 where
  text : String → Message
  held_too_long : ℕ → ℕ → Message
  released_after : ℕ → Message
  heartbeat_silent : ℕ → ℕ → Message
  unsupported : String → String → Message
  unsupported_bitrate : ℕ → Message
  url_error : String → String → Message

abbrev pub is_empty : Message → Bool
is_empty (text s) = str_eq s ""
is_empty (held_too_long _ _) = false
is_empty (released_after _) = false
is_empty (heartbeat_silent _ _) = false
is_empty (unsupported _ _) = false
is_empty (unsupported_bitrate _) = false
is_empty (url_error _ _) = false

-- health.rs `duration_ms`, in nanoseconds
unfoldable pub duration_ms : ℕ → ℕ
duration_ms value = min value i64_max * 1000000

-- health.rs `remaining_ms`; `-` stops at 0, as `.max(0)` does
unfoldable pub remaining_ms : DateTime → DateTime → ℕ
remaining_ms target now = (target - now) / 1000000

pub data ConnectionHealthState : Type 0 where
  idle connecting healthy degraded invalid reconnecting : ConnectionHealthState
  rate_limited circuit_open timeout disconnected : ConnectionHealthState

pub record ConnectionHealthSnapshot : Type 0 where
  pub phase : ConnectionHealthState
  pub diagnosis : Option Message
  pub recommended_action : Option Message
  pub last_state_changed_at : Option DateTime
  pub last_connected_at : Option DateTime
  pub last_heartbeat_at : Option DateTime
  pub last_checked_at : Option DateTime
  pub last_released_at : Option DateTime
  pub last_failure_at : Option DateTime
  pub last_failure_reason : Option Message
  pub next_retry_at : Option DateTime
  pub circuit_open_until : Option DateTime
  pub rate_limited_until : Option DateTime
  pub consecutive_failures : ℕ  -- u32
  pub total_failures : ℕ  -- u32
  pub timeout_count : ℕ  -- u32
  pub rate_limit_hits : ℕ  -- u32
  pub reconnect_attempts : ℕ  -- u32
  pub last_latency_ms : Option ℕ  -- u64

-- `ConnectionHealthSnapshot::default`
abbrev pub default_health : ConnectionHealthSnapshot
default_health = record {
  phase = idle;
  diagnosis = some (text "连接配置已加载，等待建连");
  recommended_action = some (text "可部署工作流或触发测试连接以建立会话");
  last_state_changed_at = none;
  last_connected_at = none;
  last_heartbeat_at = none;
  last_checked_at = none;
  last_released_at = none;
  last_failure_at = none;
  last_failure_reason = none;
  next_retry_at = none;
  circuit_open_until = none;
  rate_limited_until = none;
  consecutive_failures = 0;
  total_failures = 0;
  timeout_count = 0;
  rate_limit_hits = 0;
  reconnect_attempts = 0;
  last_latency_ms = none;
}

pub record ConnectionDefinition (M : Type 0) : Type 0 where
  pub id : String
  pub kind : String
  pub metadata : M

pub record ConnectionLease (M : Type 0) : Type 0 where
  pub id : String
  pub kind : String
  pub metadata : M
  pub borrowed_at : DateTime

pub record ConnectionRecord (M : Type 0) : Type 0 where
  pub id : String
  pub kind : String
  pub metadata : M
  pub in_use : Bool
  pub last_borrowed_at : Option DateTime
  pub health : ConnectionHealthSnapshot
