-- ===== src/Connections/Manager/System/Sound.antt =====
-- Every operation of the manager, in any order, keeps every record's health consistent.
use nazh.Base.{
  ℕ, Bool, true, false, String, List, [], ◌∷◌, ◌≡◌, refl, inl, inr, Option-cases, get_elem?, All,
  All-set, All-get, All-append,
}
use nazh.Connections.Types.{DateTime, ConnectionRecord}
use nazh.Connections.Health.Frame.{finalize_release-IsReleased}
use nazh.Connections.Health.Invariant.{finalize_release-IsConsistent}
use nazh.Connections.Governance.{Governance}
use nazh.Connections.Manager.State.{ConnectionManager, ConnectionGuard}
use nazh.Connections.Manager.Acquire.{acquire_at, drop_guard}
use nazh.Connections.Manager.Acquire.Cases.{IsSound, acquire_record-IsSound}
use nazh.Connections.Manager.Reports.{
  record_connect_success, record_heartbeat, record_connect_failure, record_timeout,
  mark_invalid_configuration, mark_disconnected, reset_circuit_breaker,
}
use nazh.Connections.Manager.System.{
  System, Op, acquire, drop, succeed, fail, register, upsert, upsert_all, replace, connect_success,
  heartbeat, connect_failure, timeout, invalidate, disconnect, reset_circuit, all_idle, snapshot,
  snapshots, is_forced, is_report, run, run_all, start,
}
use nazh.Connections.Manager.System.Changes.{
  Updates, Changes, same, rewrite, grow, after, with_record-Changes, connected-Updates,
  heartbeat-Updates, disconnect-Updates, mark_invalid-Updates, reset_circuit-Updates,
}
use nazh.Connections.Manager.System.Operations.{
  on_entry-Changes, record_failure-Changes, get-Changes, register_connection-Changes,
  upsert_connection-Changes, upsert_connections-Changes, replace_connections-Changes,
  mark_all_idle-Changes, list-Changes,
}

module _ (G : Governance) where
  open G use {Metadata, policy}

  -- every operation but `acquire` and `drop` only rewrites records and adds fresh ones
  pub report-Changes :
      (op : Op Metadata) (s : System Metadata)
      → is_report op ≡ true
      → Changes G (is_forced op) s.manager.heap (run G op s).manager.heap
  unfolding run record_connect_success record_heartbeat mark_invalid_configuration mark_disconnected
      reset_circuit_breaker record_connect_failure record_timeout
  report-Changes (acquire id addr now) s e = absurd (cc)
  report-Changes (drop i now) s e = absurd (cc)
  report-Changes (succeed i) s e = same refl
  report-Changes (fail i reason) s e = same refl
  report-Changes (register d) s e = register_connection-Changes G s.manager d
  report-Changes (upsert d) s e = upsert_connection-Changes G s.manager d
  report-Changes (upsert_all ds) s e = upsert_connections-Changes G ds s.manager
  report-Changes (replace ds) s e = replace_connections-Changes G ds s.manager
  report-Changes (connect_success id note ms now) s e =
      on_entry-Changes G s.manager false id _ (connected-Updates G note ms now)
  report-Changes (heartbeat id note now) s e =
      on_entry-Changes G s.manager false id _ (heartbeat-Updates G note now)
  report-Changes (connect_failure id reason now) s e =
      record_failure-Changes G s.manager false id reason now
  report-Changes (timeout id reason now) s e = record_failure-Changes G s.manager true id reason now
  report-Changes (invalidate id reason now) s e =
      on_entry-Changes G s.manager true id _ (mark_invalid-Updates G reason now)
  report-Changes (disconnect id note now) s e =
      on_entry-Changes G s.manager true id _ (disconnect-Updates G note now)
  report-Changes (reset_circuit id now) s e =
      on_entry-Changes G s.manager false id _ (reset_circuit-Updates G now)
  report-Changes (all_idle note now) s e = mark_all_idle-Changes G note now s.manager
  report-Changes (snapshot id now) s e = get-Changes G s.manager id now
  report-Changes (snapshots now) s e = list-Changes G now s.manager

  abbrev pub IsSoundHeap : List (ConnectionRecord Metadata) → Type 0
  IsSoundHeap h = All (IsSound G) h

  Updates-IsSound :
      {forced : Bool} {r t : ConnectionRecord Metadata}
      → Updates G forced r t
      → IsSound G r
      → IsSound G t
  Updates-IsSound u h = rw u.metadata (u.health h)

  Changes-IsSound :
      {forced : Bool} {h k : List (ConnectionRecord Metadata)}
      → Changes G forced h k
      → IsSoundHeap h
      → IsSoundHeap k
  Changes-IsSound (same e) hs = rw e hs
  Changes-IsSound {h = h} (rewrite i r t at u e) hs =
      rw e (All-set (IsSound G) h i t hs (Updates-IsSound u (All-get (IsSound G) h i r hs at)))
  Changes-IsSound {h = h} (grow r fresh e) hs =
      rw e (All-append (IsSound G) h _ hs (fresh.sound, tt))
  Changes-IsSound (after c d) hs = Changes-IsSound d (Changes-IsSound c hs)

  acquire_at-IsSound :
      (id : String) (addr : ℕ) (now : DateTime) (m : ConnectionManager Metadata)
      → IsSoundHeap m.heap
      → IsSoundHeap (acquire_at G id addr now m).1.heap
  unfolding acquire_at
  acquire_at-IsSound id addr now m hs = elim (Option-cases (get_elem? m.heap addr)) [
    | inl e ↦ rw (e, acquire_at) hs
    | inr (r, e) ↦
        rw (e, acquire_at)
          (All-set (IsSound G) m.heap addr _ hs
            (acquire_record-IsSound G id now _ r (All-get (IsSound G) m.heap addr r hs e)))
  ]

  -- the release rewrites the record of the guard, and frees it
  pub drop_guard-Changes :
      (g : ConnectionGuard Metadata) (now : DateTime) (m : ConnectionManager Metadata)
      → Changes G true m.heap (drop_guard G g now m).heap
  unfolding drop_guard
  drop_guard-Changes g now m = with_record-Changes G true g.entry _ m λ r.
      let freed =
        finalize_release-IsReleased (policy r.metadata) r g.lease.borrowed_at g.outcome now in
      record {
        metadata = freed.metadata;
        in_use = λ e. cc;
        health = λ c. finalize_release-IsConsistent r g.lease.borrowed_at g.outcome now c;
      }

  run-IsSound :
      (op : Op Metadata) (s : System Metadata)
      → IsSoundHeap s.manager.heap
      → IsSoundHeap (run G op s).manager.heap
  unfolding run
  run-IsSound (acquire id addr now) s hs = acquire_at-IsSound id addr now s.manager hs
  run-IsSound (drop i now) s hs = elim (Option-cases (get_elem? s.guards i)) [
    | inl e ↦ rw (e, run) hs
    | inr (g, e) ↦ rw (e, run) (Changes-IsSound (drop_guard-Changes g now s.manager) hs)
  ]
  run-IsSound op s hs = Changes-IsSound (report-Changes op s refl) hs

  run_all-IsSound :
      (ops : List (Op Metadata)) (s : System Metadata)
      → IsSoundHeap s.manager.heap
      → IsSoundHeap (run_all G ops s).manager.heap
  unfolding run_all
  run_all-IsSound [] s hs = hs
  run_all-IsSound (op ∷ ops) s hs = run_all-IsSound ops (run G op s) (run-IsSound op s hs)

  -- After any sequence of operations on an empty manager, forced ones included, every record that was
  -- ever created, also one that its name no longer points to, is consistent with its policy: its
  -- failure and reconnect counters agree and fit `u32`, an open circuit has a deadline and has seen the
  -- threshold of failures, and a rate limit has a deadline.
  pub reachable-IsSound :
      (ops : List (Op Metadata)) → All (IsSound G) (run_all G ops (start G)).manager.heap
  reachable-IsSound ops = run_all-IsSound ops (start G) tt
