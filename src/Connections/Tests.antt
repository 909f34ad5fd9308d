-- ===== src/Connections/Tests.antt =====
-- Runs of the connection manager, and concrete inputs of its theorems: a serial port whose metadata is
-- JSON, with numbers that are natural numbers of at most 64 bits.
use nazh.Base.{
  ℕ, ◌+◌, ◌-◌, ◌*◌, ◌≤◌, ◌<◌, ◌≡◌, ◌≢◌, ◌↔◌, ◌++◌, refl, Bool, true, false, Option, none, some,
  String, List, [], ◌∷◌, arith, leb, ltb, ◌==◌, if◌then◌else◌, u64_max, bump_u32, length, All,
  ==_iff, get_elem?, min, lookup,
}
use nazh.Json.{JsonNumber, Value, null, number, string, object, end, field}
use nazh.Connections.Types.{
  Message, text, ConnectionRecord, ConnectionDefinition, default_health, remaining_ms, DateTime,
  duration_ms,
}
use nazh.Connections.Policy.{
  ConnectionGovernancePolicy, default_policy, from_metadata, reconnect_delay_ms,
}
use nazh.Connections.Policy.Bounds.{IsBounded, from_metadata-IsBounded, reconnect_delay_bounds}
use nazh.Connections.Validation.{validate_connection_definition}
use nazh.Connections.Json.{json_governance}
use nazh.Connections.Governance.{Governance}
use nazh.Connections.Validation.Usable.{Usable, accepted_iff_Usable}
use nazh.Connections.Health.{
  ConnectionOutcome, success, failure, apply_runtime_failure, finalize_release,
  connection_failure_recorded_during_lease,
}
use nazh.Connections.Health.Reconcile.{reconcile_timed_state}
use nazh.Connections.Health.Invariant.{
  IsConsistent, default-IsConsistent, reconcile_timed_state-IsConsistent,
}
use nazh.Connections.Health.Timers.{unless_passed}
use nazh.Connections.Health.Circuit.{Failure, fail_all, opens_at_threshold}
use nazh.Connections.Manager.State.{
  ConnectionManager, ok, err, connection_busy, connection_circuit_open, connection_rate_limited,
}
use nazh.Connections.Manager.Acquire.{acquire as lend_by_name, acquire_record, expire}
use nazh.Connections.Manager.Acquire.Cases.{IsSound}
use nazh.Connections.Manager.Acquire.Window.{
  recent, Ascending, Attempts, attempt_all, granted_in_window_bounded,
}
use nazh.Connections.Manager.Reports.{mark_disconnected}
use nazh.Connections.Manager.System.{
  Op, acquire, drop, succeed, fail, register, disconnect, timeout, snapshot, is_forced, run_all,
  start,
}
use nazh.Connections.Manager.System.Heap.{used}
use nazh.Connections.Manager.System.Exclusive.{holders, at_most_one_guard}
use nazh.Connections.Manager.System.Sound.{reachable-IsSound}
use nazh.Connections.Manager.System.Forced.{never_busy_after_disconnect}
mod Leases

abbrev pub small : ℕ → Option ℕ
small n = if leb n u64_max then some n else none

pub small-le : (n v : ℕ) → small n ≡ some v → v ≤ u64_max
small-le n v h = ground arith

abbrev pub naturals : JsonNumber
naturals = record {
  Number = ℕ;
  is_i64 = λ n. false;
  is_u64 = λ n. elim (small n) [ none ↦ false | some _ ↦ true ];
  as_u64 = small;
  equal = λ m n. m == n;
  as_u64_range = small-le;
  is_u64_iff = λ n. refl;
  equal_refl = λ n. (==_iff n n).1 refl;
}

-- every text parses as a URL
abbrev pub any_url : String → Option String
any_url url = none

abbrev pub site : Governance
site = json_governance naturals any_url

abbrev pub port_metadata : Value ℕ
port_metadata = object (
    field "port_path" (string " /dev/ttyS0 ") (
      field "baud_rate" (number 9600)
        (field "governance" (object (field "rate_limit_max_attempts" (number 2) end)) end)))

abbrev port : ConnectionDefinition (Value ℕ)
port = record { id = "port"; kind = " RS485 "; metadata = port_metadata }

from_metadata-IsBounded_example : IsBounded (from_metadata naturals port_metadata)
from_metadata-IsBounded_example = from_metadata-IsBounded naturals port_metadata

abbrev pub second : ℕ
second = 1000000000

-- Register the port, lend it, be refused while it is out, report a failure and take it back.
abbrev session : List (Op (Value ℕ))
session =
    register port
    ∷ acquire "port" 0 second
    ∷ acquire "port" 0 (2 * second)
    ∷ fail 0 (text "no answer")
    ∷ drop 0 (3 * second)
    ∷ snapshot "port" (4 * second)
    ∷ []

at_most_one_guard_example :
    (holders (run_all site session (start site)).guards 0 ≤ 1)
    × (holders (run_all site session (start site)).guards 0
        ≡ used (run_all site session (start site)).manager.heap 0)
at_most_one_guard_example =
    at_most_one_guard site session 0 (refl, (refl, (refl, (refl, (refl, (refl, tt))))))

reachable-IsSound_example : All (IsSound site) (run_all site session (start site)).manager.heap
reachable-IsSound_example = reachable-IsSound site session

never_busy_after_disconnect_example :
    (lend_by_name site "port"
      (5 * second)
      (mark_disconnected "port"
        (text "unplugged")
        (4 * second)
        (run_all site session (start site)).manager).1).0
    ≢ err (connection_busy "port")
never_busy_after_disconnect_example =
    never_busy_after_disconnect site "port" (text "unplugged") (4 * second) (5 * second)
      (run_all site session (start site)).manager

abbrev pub site_policy : ConnectionGovernancePolicy
site_policy = from_metadata naturals port_metadata

reconnect_delay_bounds_example :
    (reconnect_delay_ms site_policy 1
      ≡ min site_policy.reconnect_base_ms site_policy.reconnect_max_ms)
    × (reconnect_delay_ms site_policy 3 ≤ reconnect_delay_ms site_policy 4)
    × (reconnect_delay_ms site_policy 3 ≤ site_policy.reconnect_max_ms)
    × (reconnect_delay_ms site_policy 3 ≤ 64 * site_policy.reconnect_base_ms)
    × (reconnect_delay_ms site_policy 10 ≡ reconnect_delay_ms site_policy 7)
reconnect_delay_bounds_example =
    reconnect_delay_bounds site_policy 3 (from_metadata-IsBounded naturals port_metadata)

accepted_iff_Usable_example :
    (validate_connection_definition naturals any_url " RS485 " port_metadata ≡ none)
    ↔ Usable naturals any_url " RS485 " port_metadata
accepted_iff_Usable_example = accepted_iff_Usable naturals any_url " RS485 " port_metadata

abbrev pub port_record : ConnectionRecord (Value ℕ)
port_record = record {
  id = "port";
  kind = " RS485 ";
  metadata = port_metadata;
  in_use = false;
  last_borrowed_at = none;
  health = default_health;
}
