-- ===== src/Connections/Manager/Acquire/Deadlines.antt =====
-- When `acquire` lends a connection: the mark, the definition, the deadlines and the window of attempts.
use nazh.Base.{
  ◌-◌, ◌≤◌, ◌<◌, false, none, some, Option, String, List, ◌≡◌, refl, ◌↔◌, arith, length,
}
use nazh.Connections.Types.{DateTime, duration_ms, ConnectionLease, ConnectionRecord}
use nazh.Connections.Health.Frame.{reconcile_timed_state-SameUse}
use nazh.Connections.Health.Timers.{unless_passed, reconcile_timed_state-IsReconciled}
use nazh.Connections.Governance.{Governance}
use nazh.Connections.Manager.State.{ok}
use nazh.Connections.Manager.Acquire.{ahead, expire, register_attempt, acquire_record}
use nazh.Connections.Manager.Acquire.Window.{recent, Ascending, expire-recent}

-- a deadline that does not lie ahead, if there is one
abbrev pub Passed : DateTime → Option DateTime → Type 0
Passed now none = Unit
Passed now (some until) = until ≤ now

unless_passed_iff :
    (now : DateTime) (until : Option DateTime) → (unless_passed now until ≡ none) ↔ Passed now until
unless_passed_iff now none = (λ _. tt, λ _. refl)
unless_passed_iff now (some until) = (λ e. ground (arith, e), λ h. ground (arith, h))

module _ (G : Governance) where
  open G use {Metadata, policy, validate}

  -- what `acquire` asks of a record, its window of attempts and the time
  pub record IsLendable (now : DateTime) (window : List DateTime) (r : ConnectionRecord Metadata)
      : Type 0 where
    pub free : r.in_use ≡ false
    pub valid : validate r.kind r.metadata ≡ none
    pub closed : Passed now r.health.circuit_open_until
    pub cooled : Passed now r.health.rate_limited_until
    pub room :
        length (recent (now - duration_ms (policy r.metadata).rate_limit_window_ms) window)
        < (policy r.metadata).rate_limit_max_attempts

  module _ (id : String) (now : DateTime) (window : List DateTime)
      (r : ConnectionRecord Metadata) where
    abbrev lease : ConnectionLease Metadata
    lease = record { id = r.id; kind = r.kind; metadata = r.metadata; borrowed_at = now }

    abbrev kept : List DateTime
    kept = expire (now - duration_ms (policy r.metadata).rate_limit_window_ms) window

    lent :
        r.in_use ≡ false
        → validate r.kind r.metadata ≡ none
        → unless_passed now r.health.circuit_open_until ≡ none
        → unless_passed now r.health.rate_limited_until ≡ none
        → length kept < (policy r.metadata).rate_limit_max_attempts
        → (acquire_record G id now window r).result ≡ ok lease
    unfolding acquire_record ahead register_attempt
    lent free valid circuit limit room = ground (
      arith,
      reconcile_timed_state-SameUse (policy r.metadata) r now,
      reconcile_timed_state-IsReconciled (policy r.metadata) now r,
    )

    was_free : (acquire_record G id now window r).result ≡ ok lease → r.in_use ≡ false
    unfolding acquire_record
    was_free e = ground (arith, e, reconcile_timed_state-SameUse (policy r.metadata) r now)

    was_valid :
        (acquire_record G id now window r).result ≡ ok lease → validate r.kind r.metadata ≡ none
    unfolding acquire_record
    was_valid e = ground (arith, e, reconcile_timed_state-SameUse (policy r.metadata) r now)

    were_passed :
        (acquire_record G id now window r).result ≡ ok lease
        → (unless_passed now r.health.circuit_open_until ≡ none)
          × (unless_passed now r.health.rate_limited_until ≡ none)
          × (length kept < (policy r.metadata).rate_limit_max_attempts)
    unfolding acquire_record ahead register_attempt
    were_passed e = ground (
      arith,
      e,
      reconcile_timed_state-SameUse (policy r.metadata) r now,
      reconcile_timed_state-IsReconciled (policy r.metadata) now r,
    )

    -- With its attempts in the order of time and a window that does not reach back behind time 0, a
    -- connection is lent, with its definition and the time in the lease, exactly if it is free, its
    -- definition is valid, neither the deadline of its circuit nor that of its rate limit lies ahead,
    -- and fewer attempts than the limit are recent.
    pub lent_iff_IsLendable :
        duration_ms (policy r.metadata).rate_limit_window_ms ≤ now
        → Ascending window
        → ((acquire_record G id now window r).result
            ≡ ok (record { id = r.id; kind = r.kind; metadata = r.metadata; borrowed_at = now }))
          ↔ IsLendable now window r
    lent_iff_IsLendable in_range ascending =
        let same =
          expire-recent (now - duration_ms (policy r.metadata).rate_limit_window_ms) window
            ascending in
        (
          λ e.
              let (circuit, limit, room) = were_passed e in
              record {
                free = was_free e;
                valid = was_valid e;
                closed = (unless_passed_iff now r.health.circuit_open_until).0 circuit;
                cooled = (unless_passed_iff now r.health.rate_limited_until).0 limit;
                room = rw (← same) room;
              },
          λ h.
              lent h.free h.valid ((unless_passed_iff now r.health.circuit_open_until).1 h.closed)
                ((unless_passed_iff now r.health.rate_limited_until).1 h.cooled) (rw same h.room),
        )
