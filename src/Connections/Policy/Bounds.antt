-- ===== src/Connections/Policy/Bounds.antt =====
-- Whatever the metadata says, the policy that is read from it (policy.rs) is within its bounds, and
-- the backoff grows with the attempts up to its cap.
use nazh.Base.{
  ℕ, zero, suc, ◌+◌, ◌-◌, ◌*◌, ◌^◌, ◌≤◌, min, ◌≡◌, some, String, arith, inl, inr, Option-cases,
  u32_max, u64_max,
}
use nazh.Json.{JsonNumber, Value, as_u64}
use nazh.Connections.Policy.{
  ConnectionGovernancePolicy, reconnect_delay_ms, governance_u64, governance_u32, governance_value,
  from_metadata,
}

pub record IsBounded (p : ConnectionGovernancePolicy) : Type 0 where
  pub connect_floor : 200 ≤ p.connect_timeout_ms
  pub operation_floor : 200 ≤ p.operation_timeout_ms
  pub interval_floor : 250 ≤ p.heartbeat_interval_ms
  pub heartbeat_floor : 500 ≤ p.heartbeat_timeout_ms
  pub attempts_floor : 1 ≤ p.rate_limit_max_attempts
  pub attempts_fit : p.rate_limit_max_attempts ≤ u32_max
  pub window_floor : 500 ≤ p.rate_limit_window_ms
  pub cooldown_floor : 500 ≤ p.rate_limit_cooldown_ms
  pub threshold_floor : 1 ≤ p.circuit_failure_threshold
  pub threshold_fits : p.circuit_failure_threshold ≤ u32_max
  pub open_floor : 1000 ≤ p.circuit_open_ms
  pub open_fits : p.circuit_open_ms ≤ u64_max
  pub base_floor : 200 ≤ p.reconnect_base_ms
  pub base_fits : p.reconnect_base_ms ≤ u64_max
  pub max_floor : 500 ≤ p.reconnect_max_ms
  pub max_fits : p.reconnect_max_ms ≤ u64_max

module _ (J : JsonNumber) where
  open J use {Number, as_u64_range}

  as_u64-le : (v : Value Number) (n : ℕ) → as_u64 J v ≡ some n → n ≤ u64_max
  as_u64-le (Value.number x) n h = as_u64_range x n h
  as_u64-le Value.null n h = ground arith
  as_u64-le (Value.bool b) n h = ground arith
  as_u64-le (Value.string s) n h = ground arith
  as_u64-le (Value.array s) n h = ground arith
  as_u64-le (Value.object s) n h = ground arith

  governance_u64-le :
      (m : Value Number) (key : String) (d : ℕ) → d ≤ u64_max → governance_u64 J m key d ≤ u64_max
  unfolding governance_u64
  governance_u64-le m key d h = elim (Option-cases (governance_value J m key)) [
    | inl e ↦ rw e h
    | inr (v, e) ↦ rw e (elim (Option-cases (as_u64 J v)) [
      | inl e' ↦ rw e' h
      | inr (n, e') ↦ rw e' (as_u64-le v n e')
    ])
  ]

  governance_u32-le :
      (m : Value Number) (key : String) (d : ℕ) → d ≤ u32_max → governance_u32 J m key d ≤ u32_max
  unfolding governance_u32
  governance_u32-le m key d h = elim (Option-cases (governance_value J m key)) [
    | inl e ↦ rw e h
    | inr (v, e) ↦
        rw e (elim (Option-cases (as_u64 J v)) [
          | inl e' ↦ rw e' h
          | inr (n, e') ↦ rw e' (ground arith)
        ])
  ]

  -- Whatever JSON the metadata is, the policy read from it keeps every lower limit (a circuit
  -- threshold and an attempt limit of at least 1, an open time of at least one second, and so on),
  -- its counts fit `u32` and its circuit and backoff times fit `u64`.
  pub from_metadata-IsBounded : (metadata : Value Number) → IsBounded (from_metadata J metadata)
  unfolding from_metadata
  from_metadata-IsBounded m = omega (
    arith,
    governance_u32-le m "rate_limit_max_attempts" 8 (omega arith),
    governance_u32-le m "circuit_failure_threshold" 3 (omega arith),
    governance_u64-le m "circuit_open_ms" 15000 (omega arith),
    governance_u64-le m "reconnect_base_ms" 800 (omega arith),
    governance_u64-le m "reconnect_max_ms" 8000 (omega arith),
  )

abbrev factor : ℕ → ℕ
factor attempt = 2 ^ min (attempt - 1) 6

factor_high : (n : ℕ) → factor (n + 7) ≡ 64
factor_high n = let e : min (n + 7 - 1) 6 ≡ 6 = omega arith in rw e

factor_step : (n : ℕ) → (factor n ≤ factor (n + 1)) × (factor n ≤ 64)
factor_step zero = (omega arith, omega arith)
factor_step (suc zero) = (omega arith, omega arith)
factor_step (suc (suc zero)) = (omega arith, omega arith)
factor_step (suc (suc (suc zero))) = (omega arith, omega arith)
factor_step (suc (suc (suc (suc zero)))) = (omega arith, omega arith)
factor_step (suc (suc (suc (suc (suc zero))))) = (omega arith, omega arith)
factor_step (suc (suc (suc (suc (suc (suc zero)))))) = (omega arith, omega arith)
factor_step (suc (suc (suc (suc (suc (suc (suc n))))))) =
    let e : min (suc (suc (suc (suc (suc (suc (suc n)))))) - 1) 6 ≡ 6 = omega arith in
    let e' : min (suc (suc (suc (suc (suc (suc (suc n)))))) + 1 - 1) 6 ≡ 6 = omega arith in
    rw (e, e') (omega arith, omega arith)

delay_mono :
    (base top f g : ℕ) → f ≤ g → min (min (base * f) u64_max) top ≤ min (min (base * g) u64_max) top
delay_mono base top f g h = let k : base * f ≤ base * g = grind arith in omega arith

-- The first attempt waits the base time, every later attempt at least as long as the one before,
-- none longer than the cap or than 64 base times, and from the seventh attempt on the wait is constant.
pub reconnect_delay_bounds :
    (p : ConnectionGovernancePolicy) (attempt : ℕ)
    → IsBounded p
    → (reconnect_delay_ms p 1 ≡ min p.reconnect_base_ms p.reconnect_max_ms)
      × (reconnect_delay_ms p attempt ≤ reconnect_delay_ms p (attempt + 1))
      × (reconnect_delay_ms p attempt ≤ p.reconnect_max_ms)
      × (reconnect_delay_ms p attempt ≤ 64 * p.reconnect_base_ms)
      × (reconnect_delay_ms p (attempt + 7) ≡ reconnect_delay_ms p 7)
unfolding reconnect_delay_ms
reconnect_delay_bounds p attempt v =
    let cap = (factor_step attempt).1 in
    let scaled : p.reconnect_base_ms * factor attempt ≤ 64 * p.reconnect_base_ms = grind arith in
    (
      omega arith,
      delay_mono p.reconnect_base_ms p.reconnect_max_ms _ _ (factor_step attempt).0,
      omega arith,
      omega arith,
      rw (factor_high attempt),
    )
