-- ===== src/Connections/Policy.antt =====
-- crates/connections/src/policy.rs: the limits that govern a connection, and the backoff.
pub mod Bounds
use nazh.Base.{
  ℕ, ◌+◌, ◌-◌, ◌*◌, ◌^◌, ◌≤◌, min, max, ◌≡◌, Option, none, some, String, arith, leb, if◌then◌else◌,
  u32_max, u64_max, saturating_mul_u64,
}
use nazh.Json.{JsonNumber, Value, as_object, as_u64, get_field}

pub record ConnectionGovernancePolicy : Type 0 where
  pub connect_timeout_ms : ℕ  -- u64
  pub operation_timeout_ms : ℕ  -- u64
  pub heartbeat_interval_ms : ℕ  -- u64
  pub heartbeat_timeout_ms : ℕ  -- u64
  pub rate_limit_max_attempts : ℕ  -- u32
  pub rate_limit_window_ms : ℕ  -- u64
  pub rate_limit_cooldown_ms : ℕ  -- u64
  pub circuit_failure_threshold : ℕ  -- u32
  pub circuit_open_ms : ℕ  -- u64
  pub reconnect_base_ms : ℕ  -- u64
  pub reconnect_max_ms : ℕ  -- u64

-- `ConnectionGovernancePolicy::default`
abbrev pub default_policy : ConnectionGovernancePolicy
default_policy = record {
  connect_timeout_ms = 3000;
  operation_timeout_ms = 5000;
  heartbeat_interval_ms = 3000;
  heartbeat_timeout_ms = 12000;
  rate_limit_max_attempts = 8;
  rate_limit_window_ms = 10000;
  rate_limit_cooldown_ms = 4000;
  circuit_failure_threshold = 3;
  circuit_open_ms = 15000;
  reconnect_base_ms = 800;
  reconnect_max_ms = 8000;
}

-- `reconnect_delay_ms`; `-` stops at 0, as `saturating_sub` does
unfoldable pub reconnect_delay_ms : ConnectionGovernancePolicy → ℕ → ℕ
unfolding saturating_mul_u64
reconnect_delay_ms policy attempt =
    let exponent = min (attempt - 1) 6 in
    let multiplier = 2 ^ exponent in
    min (saturating_mul_u64 policy.reconnect_base_ms multiplier) policy.reconnect_max_ms

abbrev and_then {ℓ κ} : {A : Type ℓ} {B : Type κ} → Option A → (A → Option B) → Option B
and_then none f = none
and_then (some a) f = f a

abbrev or_else : ℕ → Option ℕ → ℕ
or_else fallback none = fallback
or_else fallback (some value) = value

-- `u32::try_from(value).ok()`
abbrev try_u32 : ℕ → Option ℕ
try_u32 value = if leb value u32_max then some value else none

module _ (J : JsonNumber) where
  open J use {Number}

  unfoldable pub governance_value : Value Number → String → Option (Value Number)
  unfolding get_field
  governance_value metadata key = and_then (as_object metadata) λ value.
      and_then (get_field "governance" value)
        λ governance. and_then (as_object governance) λ fields. get_field key fields

  unfoldable pub governance_u64 : Value Number → String → ℕ → ℕ
  unfolding governance_value
  governance_u64 metadata key fallback =
      or_else fallback (and_then (governance_value metadata key) (as_u64 J))

  unfoldable pub governance_u32 : Value Number → String → ℕ → ℕ
  unfolding governance_value
  governance_u32 metadata key fallback =
      or_else fallback (and_then (and_then (governance_value metadata key) (as_u64 J)) try_u32)

  unfoldable pub from_metadata : Value Number → ConnectionGovernancePolicy
  unfolding governance_u64 governance_u32
  from_metadata metadata = record {
    connect_timeout_ms =
        max (governance_u64 metadata "connect_timeout_ms" default_policy.connect_timeout_ms) 200;
    operation_timeout_ms =
        max (governance_u64 metadata "operation_timeout_ms" default_policy.operation_timeout_ms)
          200;
    heartbeat_interval_ms =
        max (governance_u64 metadata "heartbeat_interval_ms" default_policy.heartbeat_interval_ms)
          250;
    heartbeat_timeout_ms =
        max (governance_u64 metadata "heartbeat_timeout_ms" default_policy.heartbeat_timeout_ms)
          500;
    rate_limit_max_attempts =
        max
          (governance_u32 metadata "rate_limit_max_attempts" default_policy.rate_limit_max_attempts)
          1;
    rate_limit_window_ms =
        max (governance_u64 metadata "rate_limit_window_ms" default_policy.rate_limit_window_ms)
          500;
    rate_limit_cooldown_ms =
        max (governance_u64 metadata "rate_limit_cooldown_ms" default_policy.rate_limit_cooldown_ms)
          500;
    circuit_failure_threshold =
        max
          (governance_u32 metadata "circuit_failure_threshold"
            default_policy.circuit_failure_threshold)
          1;
    circuit_open_ms =
        max (governance_u64 metadata "circuit_open_ms" default_policy.circuit_open_ms) 1000;
    reconnect_base_ms =
        max (governance_u64 metadata "reconnect_base_ms" default_policy.reconnect_base_ms) 200;
    reconnect_max_ms =
        max (governance_u64 metadata "reconnect_max_ms" default_policy.reconnect_max_ms) 500;
  }
