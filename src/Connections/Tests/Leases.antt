-- ===== src/Connections/Tests/Leases.antt =====
-- Runs of one connection's record: refusals, leases and releases.
use nazh.Base.{
  ◌-◌, ◌*◌, ◌≤◌, ◌≡◌, ◌↔◌, refl, true, false, none, List, [], ◌∷◌, arith, ltb, if◌then◌else◌,
  bump_u32, to_ascii_lowercase, trim, length,
}
use nazh.Json.{get_field}
use nazh.Connections.Types.{DateTime, text, duration_ms, remaining_ms, circuit_open}
use nazh.Connections.Policy.{from_metadata}
use nazh.Connections.Policy.Bounds.{from_metadata-IsBounded}
use nazh.Connections.Validation.{
  validate_connection_definition, kind_of, check_fields, text_field, number_field,
}
use nazh.Connections.Health.{failure, apply_runtime_failure, finalize_release}
use nazh.Connections.Health.Circuit.{Failure, fail_all, opens_at_threshold}
use nazh.Connections.Manager.State.{ok}
use nazh.Connections.Manager.Acquire.{acquire_record}
use nazh.Connections.Manager.Acquire.Deadlines.{IsLendable, lent_iff_IsLendable}
use nazh.Connections.Manager.Reports.Records.{heartbeat}
use nazh.Connections.Manager.Reports.Counted.{heartbeat_counts_failure_twice}
use nazh.Connections.Manager.Acquire.Window.{recent, attempt_all, granted_in_window_bounded}
use nazh.Connections.Tests.{
  naturals, any_url, site, port_metadata, port_record, site_policy, second,
}

port_is_valid : validate_connection_definition naturals any_url " RS485 " port_metadata ≡ none
unfolding validate_connection_definition kind_of check_fields text_field number_field get_field
    to_ascii_lowercase trim
port_is_valid = refl

two_attempts : site_policy.rate_limit_max_attempts ≡ 2
unfolding from_metadata
two_attempts = refl

-- one attempt that is still recent and one that is not
abbrev quiet_window : List DateTime
quiet_window = 2 * second ∷ 21 * second ∷ []

in_range : duration_ms site_policy.rate_limit_window_ms ≤ 22 * second
unfolding from_metadata duration_ms
in_range = omega arith

lent_iff_IsLendable_example :
    ((acquire_record site "port" (22 * second) quiet_window port_record).result
      ≡ ok (record {
        id = "port";
        kind = " RS485 ";
        metadata = port_metadata;
        borrowed_at = 22 * second;
      }))
    ↔ IsLendable site (22 * second) quiet_window port_record
lent_iff_IsLendable_example =
    lent_iff_IsLendable site "port" (22 * second) quiet_window port_record in_range
      ((omega arith, tt), (tt, tt))

port-IsLendable : IsLendable site (22 * second) quiet_window port_record
unfolding recent from_metadata duration_ms
port-IsLendable = record {
  free = refl;
  valid = port_is_valid;
  closed = tt;
  cooled = tt;
  room = omega (arith, two_attempts);
}

abbrev no_answer : Failure
no_answer = record { at = second; reason = text "no answer"; is_timeout = true }

opens_at_threshold_example :
    ((fail_all site_policy port_record (no_answer ∷ no_answer ∷ no_answer ∷ [])).health.phase
      ≡ circuit_open)
    ↔ (site_policy.circuit_failure_threshold ≤ 3)
opens_at_threshold_example =
    opens_at_threshold site_policy port_record no_answer (no_answer ∷ no_answer ∷ [])
      (from_metadata-IsBounded naturals port_metadata) refl

in_time : remaining_ms (3 * second) (2 * second) ≤ site_policy.operation_timeout_ms
unfolding remaining_ms from_metadata
in_time = omega arith

-- the first failure of a lease is counted as two
heartbeat_counts_failure_twice_example :
    let failed =
      (apply_runtime_failure port_record site_policy (3 * second) (text "cut") false).0 in
    let seen = heartbeat (text "ok") (3 * second) failed in
    let count = bump_u32 port_record.health.consecutive_failures in
    let lost = failure (text "lost") in
    let released = finalize_release failed site_policy (2 * second) lost (3 * second) in
    let twice = finalize_release seen site_policy (2 * second) lost (3 * second) in
    (released.health.consecutive_failures ≡ count)
    × (twice.health.consecutive_failures
        ≡ (if ltb count site_policy.circuit_failure_threshold then bump_u32 count else count))
heartbeat_counts_failure_twice_example =
    heartbeat_counts_failure_twice site_policy port_record (2 * second) (3 * second) (text "cut")
      false (3 * second) (3 * second) (text "ok") (text "lost") in_time (omega arith)

granted_in_window_bounded_example :
    let s =
      attempt_all site_policy
        (record { window = []; granted = [] })
        (second ∷ 2 * second ∷ 3 * second ∷ []) in
    let cutoff = 3 * second - duration_ms site_policy.rate_limit_window_ms in
    (length (recent cutoff s.granted) ≤ site_policy.rate_limit_max_attempts)
    × (s.window ≡ recent cutoff s.granted)
granted_in_window_bounded_example =
    granted_in_window_bounded site_policy (second ∷ 2 * second ∷ []) (3 * second) (omega arith)
