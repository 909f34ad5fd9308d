-- ===== src/Connections/Manager/Reports/Counted.antt =====
-- How often a failure of a lease is counted, with and without a heartbeat between the failure and the
-- release.
use nazh.Base.{◌≤◌, ◌≡◌, ◌∙◌, true, false, Bool, if◌then◌else◌, ltb, arith, bump_u32}
use nazh.Connections.Types.{DateTime, Message, remaining_ms, ConnectionRecord}
use nazh.Connections.Policy.{ConnectionGovernancePolicy}
use nazh.Connections.Health.{
  failure, apply_runtime_failure, finalize_release, connection_failure_recorded_during_lease,
}
use nazh.Connections.Health.Circuit.{failures-fail_once, in_time_failure, recorded_by_failure}
use nazh.Connections.Manager.Reports.Records.{heartbeat}

module _ {M : Type 0} (p : ConnectionGovernancePolicy) (r : ConnectionRecord M)
    (borrowed_at t : DateTime) (reason : Message) (late : Bool) where
  abbrev failed : ConnectionRecord M
  failed = (apply_runtime_failure r p t reason late).0

  forgotten_by_heartbeat :
      (diagnosis : Message) (seen_at : DateTime)
      → borrowed_at ≤ t
      → (heartbeat diagnosis seen_at failed).health.consecutive_failures
          ≡ bump_u32 r.health.consecutive_failures
        × (connection_failure_recorded_during_lease (heartbeat diagnosis seen_at failed) borrowed_at
            ≡ (if ltb (bump_u32 r.health.consecutive_failures) p.circuit_failure_threshold
                then false
                else true))
  unfolding heartbeat apply_runtime_failure connection_failure_recorded_during_lease
  forgotten_by_heartbeat diagnosis seen_at after = ground (arith, after)

  -- A failure that is recorded at a time of the lease, and then released in time with a failure, adds
  -- one to the count of consecutive failures in all, if nothing comes between. If a heartbeat does, it
  -- adds two (counts stop at the greatest u32), unless the failure opened the circuit.
  pub heartbeat_counts_failure_twice :
      (seen_at now : DateTime) (diagnosis said : Message)
      → remaining_ms now borrowed_at ≤ p.operation_timeout_ms
      → borrowed_at ≤ t
      → let failed = (apply_runtime_failure r p t reason late).0 in
        let seen = heartbeat diagnosis seen_at failed in
        let count = bump_u32 r.health.consecutive_failures in
        ((finalize_release failed p borrowed_at (failure said) now).health.consecutive_failures
          ≡ count)
        × ((finalize_release seen p borrowed_at (failure said) now).health.consecutive_failures
            ≡ (if ltb count p.circuit_failure_threshold then bump_u32 count else count))
  heartbeat_counts_failure_twice seen_at now diagnosis said in_time after =
      let (count, noted) = forgotten_by_heartbeat diagnosis seen_at after in
      (
        in_time_failure p failed borrowed_at now said in_time
            ∙ rw (recorded_by_failure p r borrowed_at t reason late after)
                (failures-fail_once p r (record { at = t; reason = reason; is_timeout = late })),
        in_time_failure p (heartbeat diagnosis seen_at failed) borrowed_at now said in_time
            ∙ ground (arith, count, noted),
      )
