-- ===== src/Connections/Manager/System/Forced.antt =====
-- What the forced operations of health_ops.rs do to a lease that is still out.
use nazh.Base.{
  refl, ℕ, false, none, some, String, List, ◌≡◌, ◌≢◌, inl, inr, Option-cases, get_elem?,
  get_elem?-set_self, arith,
}
use nazh.Connections.Types.{DateTime, Message, ConnectionRecord}
use nazh.Connections.Health.Frame.{reconcile_timed_state-SameUse}
use nazh.Connections.Governance.{Governance}
use nazh.Connections.Manager.State.{ConnectionManager, err, connection_busy, with_record, entry}
use nazh.Connections.Manager.Acquire.{acquire_record, acquire_at, acquire, window_of}
use nazh.Connections.Manager.Reports.{on_entry, mark_disconnected}
use nazh.Connections.Manager.Reports.Records.{disconnect}

module _ (G : Governance) where
  open G use {Metadata, policy}

  acquire_record-ne-busy :
      (id : String) (now : DateTime) (window : List DateTime) (r : ConnectionRecord Metadata)
      → r.in_use ≡ false
      → (acquire_record G id now window r).result ≢ err (connection_busy id)
  unfolding acquire_record
  acquire_record-ne-busy id now window r free =
      ground (arith, reconcile_timed_state-SameUse (policy r.metadata) r now)

  acquire_at-ne-busy :
      (id : String) (addr : ℕ) (now : DateTime) (m : ConnectionManager Metadata)
      (r : ConnectionRecord Metadata)
      → get_elem? m.heap addr ≡ some r
      → r.in_use ≡ false
      → (acquire_at G id addr now m).0 ≢ err (connection_busy id)
  unfolding acquire_at
  acquire_at-ne-busy id addr now m r there free =
      rw (there, acquire_at)
        (ground (arith, acquire_record-ne-busy id now (window_of G id m) r free))

  acquire_at-ne-busy_gone :
      (id : String) (addr : ℕ) (now : DateTime) (m : ConnectionManager Metadata)
      → get_elem? m.heap addr ≡ none
      → (acquire_at G id addr now m).0 ≢ err (connection_busy id)
  unfolding acquire_at
  acquire_at-ne-busy_gone id addr now m gone = rw (gone, acquire_at) (ground arith)

  -- Right after `mark_disconnected` an acquisition never reports that the connection is busy,
  -- also while the guard of an earlier acquisition is still out.
  pub never_busy_after_disconnect :
      (id : String) (note : Message) (t now : DateTime) (m : ConnectionManager Metadata)
      → (acquire G id now (mark_disconnected id note t m).1).0 ≢ err (connection_busy id)
  unfolding acquire mark_disconnected
  never_busy_after_disconnect id note t now m = elim (Option-cases (entry id m)) [
    | inl e ↦ rw (e, on_entry) (rw (e, acquire) (ground arith))
    | inr (addr, e) ↦
        rw (e, on_entry)
          (elim (Option-cases (get_elem? m.heap addr)) [
            | inl gone ↦
                rw (gone, with_record)
                  (rw (e, acquire) (acquire_at-ne-busy_gone id addr now m gone))
            | inr (r, there) ↦
                rw (there, with_record)
                  (rw (e, acquire)
                    (acquire_at-ne-busy id addr now _ (disconnect note t r)
                      (get_elem?-set_self m.heap addr r (disconnect note t r) there) refl))
          ])
  ]
