-- ===== src/Connections/Health/Circuit.antt =====
-- The circuit breaker of health.rs over runs of failures.
use nazh.Base.{
  if◌then◌else◌, ◌+◌, ◌≤◌, min, Bool, true, List, [], ◌∷◌, ◌≡◌, ◌↔◌, arith, length, u32_max,
  bump_u32,
}
use nazh.Connections.Types.{DateTime, Message, circuit_open, remaining_ms, ConnectionRecord}
use nazh.Connections.Policy.{ConnectionGovernancePolicy}
use nazh.Connections.Policy.Bounds.{IsBounded}
use nazh.Connections.Health.{
  failure, apply_runtime_failure, finalize_release, connection_failure_recorded_during_lease,
}

pub record Failure : Type 0 where
  pub at : DateTime
  pub reason : Message
  pub is_timeout : Bool

module _ {M : Type 0} (p : ConnectionGovernancePolicy) where
  abbrev pub fail_once : ConnectionRecord M → Failure → ConnectionRecord M
  fail_once r f = (apply_runtime_failure r p f.at f.reason f.is_timeout).0

  -- the record after a run of failures, in order
  unfoldable pub fail_all : ConnectionRecord M → List Failure → ConnectionRecord M
  fail_all r [] = r
  fail_all r (f ∷ fs) = fail_all (fail_once r f) fs

  pub failures-fail_once :
      (r : ConnectionRecord M) (f : Failure)
      → (fail_once r f).health.consecutive_failures ≡ bump_u32 r.health.consecutive_failures
  unfolding apply_runtime_failure
  failures-fail_once r f = ground arith

  failures-fail_all :
      (r : ConnectionRecord M) (fs : List Failure)
      → r.health.consecutive_failures ≤ u32_max
      → (fail_all r fs).health.consecutive_failures
        ≡ min (r.health.consecutive_failures + length fs) u32_max
  unfolding fail_all bump_u32
  failures-fail_all r [] h = omega arith
  failures-fail_all r (f ∷ fs) h =
      ground (arith, failures-fail_once r f, failures-fail_all (fail_once r f) fs)

  opens_exactly :
      (r : ConnectionRecord M) (f : Failure) (fs : List Failure)
      → ((fail_all r (f ∷ fs)).health.phase ≡ circuit_open)
        ↔ (p.circuit_failure_threshold ≤ (fail_all r (f ∷ fs)).health.consecutive_failures)
  unfolding fail_all apply_runtime_failure
  opens_exactly r f [] = ground arith
  opens_exactly r f (g ∷ fs) = opens_exactly (fail_once r f) g fs

  -- From a record with no failure on its count, after a run of at least one failure (timeouts or not)
  -- with no success in between, the circuit is open exactly if the run is at least as long as the
  -- threshold.
  pub opens_at_threshold :
      (r : ConnectionRecord M) (f : Failure) (fs : List Failure)
      → IsBounded p
      → r.health.consecutive_failures ≡ 0
      → ((fail_all r (f ∷ fs)).health.phase ≡ circuit_open)
        ↔ (p.circuit_failure_threshold ≤ length (f ∷ fs))
  opens_at_threshold r f fs bounded none_yet =
      let count = failures-fail_all r (f ∷ fs) (omega arith) in
      let opens = opens_exactly r f fs in
      (λ e. let reached = opens.0 e in omega arith, λ e. opens.1 (omega arith))

  pub in_time_failure :
      (r : ConnectionRecord M) (borrowed_at now : DateTime) (said : Message)
      → remaining_ms now borrowed_at ≤ p.operation_timeout_ms
      → (finalize_release r p borrowed_at (failure said) now).health.consecutive_failures ≡ (
          if connection_failure_recorded_during_lease r borrowed_at
          then r.health.consecutive_failures
          else bump_u32 r.health.consecutive_failures)
  unfolding finalize_release apply_runtime_failure
  in_time_failure r b now said in_time = ground arith

  pub recorded_by_failure :
      (r : ConnectionRecord M) (borrowed_at t : DateTime) (reason : Message) (late : Bool)
      → borrowed_at ≤ t
      → connection_failure_recorded_during_lease
          (apply_runtime_failure r p t reason late).0
          borrowed_at
        ≡ true
  unfolding apply_runtime_failure connection_failure_recorded_during_lease
  recorded_by_failure r b t reason late after = ground arith
