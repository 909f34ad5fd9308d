-- ===== src/Connections/Manager/System/Changes.antt =====
-- What each operation of the manager (manager/mod.rs, health_ops.rs) does to the heap of records:
-- a chain of rewrites of single records, and of fresh records put at the end.
use nazh.Base.{
  ℕ, Bool, true, false, Option, none, some, String, List, [], ◌∷◌, ◌++◌, ◌≡◌, refl, arith, inl, inr,
  Option-cases, get_elem?, set,
}
use nazh.Connections.Types.{
  default_health, DateTime, Message, ConnectionDefinition, ConnectionRecord,
}
use nazh.Connections.Policy.{default_policy}
use nazh.Connections.Health.{apply_runtime_failure, mark_invalid}
use nazh.Connections.Health.Reconcile.{reconcile_timed_state}
use nazh.Connections.Health.Frame.{
  reconcile_timed_state-SameUse, apply_runtime_failure-SameUse,
  refresh_definition_diagnosis-SameUse,
}
use nazh.Connections.Health.Invariant.{
  IsConsistent, default-IsConsistent, reconcile_timed_state-IsConsistent,
  apply_runtime_failure-IsConsistent, mark_invalid-IsConsistent,
  refresh_definition_diagnosis-IsConsistent,
}
use nazh.Connections.Governance.{Governance}
use nazh.Connections.Manager.State.{ConnectionManager, with_record, put_record}
use nazh.Connections.Manager.Acquire.{build_record}
use nazh.Connections.Manager.Acquire.Cases.{IsSound}
use nazh.Connections.Manager.Reports.Records.{connected, heartbeat, disconnect, reset_circuit, rest}

module _ (G : Governance) where
  open G use {Metadata, policy, validate}

  abbrev pub Heap : Type 0
  Heap = List (ConnectionRecord Metadata)

  -- A record rewritten by an operation, which may clear `in_use` only if it is forced.
  pub record Updates (forced : Bool) (r s : ConnectionRecord Metadata) : Type 0 where
    pub metadata : s.metadata ≡ r.metadata
    pub health : IsSound G r → IsConsistent (policy r.metadata) s.health
    pub in_use : forced ≡ false → s.in_use ≡ r.in_use

  pub record IsFresh (r : ConnectionRecord Metadata) : Type 0 where
    pub sound : IsSound G r
    pub free : r.in_use ≡ false

  pub data Changes (forced : Bool) : Heap → Heap → Type 0 where
    same : {h k : Heap} → k ≡ h → Changes forced h k
    rewrite :
        {h k : Heap} (i : ℕ) (r s : ConnectionRecord Metadata)
        → get_elem? h i ≡ some r
        → Updates forced r s
        → k ≡ set h i s
        → Changes forced h k
    grow :
        {h k : Heap} (r : ConnectionRecord Metadata)
        → IsFresh r
        → k ≡ h ++ r ∷ []
        → Changes forced h k
    after : {h j k : Heap} → Changes forced h j → Changes forced j k → Changes forced h k

  pub with_record-Changes :
      (forced : Bool) (addr : ℕ) (f : ConnectionRecord Metadata → ConnectionRecord Metadata)
      (m : ConnectionManager Metadata)
      → ((r : ConnectionRecord Metadata) → Updates forced r (f r))
      → Changes forced m.heap (with_record addr f m).heap
  unfolding with_record
  with_record-Changes forced addr f m u = elim (Option-cases (get_elem? m.heap addr)) [
    | inl e ↦ same (rw (e, with_record))
    | inr (r, e) ↦ rewrite addr r (f r) e (u r) (rw (e, with_record))
  ]

  pub put_record-Changes :
      (forced : Bool) (id : String) (r : ConnectionRecord Metadata) (m : ConnectionManager Metadata)
      → IsFresh r
      → Changes forced m.heap (put_record id r m).heap
  unfolding put_record
  put_record-Changes forced id r m fresh = grow r fresh refl

  pub build_record-IsFresh : (d : ConnectionDefinition Metadata) → IsFresh (build_record G d)
  unfolding build_record
  build_record-IsFresh d =
      let checked = validate d.kind d.metadata in
      let kept = refresh_definition_diagnosis-SameUse default_policy blank checked in
      record {
        sound = rw kept.metadata (
            refresh_definition_diagnosis-IsConsistent blank
              (default-IsConsistent (policy d.metadata)) checked);
        free = kept.in_use;
      }
    where
      blank : ConnectionRecord Metadata
      blank = record {
        id = d.id;
        kind = d.kind;
        metadata = d.metadata;
        in_use = false;
        last_borrowed_at = none;
        health = default_health;
      }

  pub connected-Updates :
      (diagnosis : Message) (ms : Option ℕ) (now : DateTime) (r : ConnectionRecord Metadata)
      → Updates false r (connected diagnosis ms now r)
  unfolding connected
  connected-Updates diagnosis ms now r = record {
    metadata = refl;
    in_use = λ _. refl;
    health = λ c. ground arith;
  }

  pub heartbeat-Updates :
      (diagnosis : Message) (now : DateTime) (r : ConnectionRecord Metadata)
      → Updates false r (heartbeat diagnosis now r)
  unfolding heartbeat
  heartbeat-Updates diagnosis now r = record {
    metadata = refl;
    in_use = λ _. refl;
    health = λ c. ground arith;
  }

  pub disconnect-Updates :
      (diagnosis : Message) (now : DateTime) (r : ConnectionRecord Metadata)
      → Updates true r (disconnect diagnosis now r)
  unfolding disconnect
  disconnect-Updates diagnosis now r = record {
    metadata = refl;
    in_use = λ e. cc;
    health = λ c. ground arith;
  }

  pub mark_invalid-Updates :
      (reason : Message) (now : DateTime) (r : ConnectionRecord Metadata)
      → Updates true r (mark_invalid r reason now)
  unfolding mark_invalid
  mark_invalid-Updates reason now r = record {
    metadata = refl;
    in_use = λ e. cc;
    health = λ c. mark_invalid-IsConsistent r c reason now;
  }

  pub reset_circuit-Updates :
      (now : DateTime) (r : ConnectionRecord Metadata) → Updates false r (reset_circuit now r)
  unfolding reset_circuit
  reset_circuit-Updates now r = record {
    metadata = refl;
    in_use = λ _. refl;
    health = λ c. ground arith;
  }

  pub rest-Updates :
      (diagnosis : Message) (now : DateTime) (r : ConnectionRecord Metadata)
      → Updates true r (rest diagnosis now r)
  unfolding rest
  rest-Updates diagnosis now r = record {
    metadata = refl;
    in_use = λ e. cc;
    health = λ c. ground arith;
  }

  pub failed-Updates :
      (reason : Message) (is_timeout : Bool) (now : DateTime) (r : ConnectionRecord Metadata)
      → Updates false r (apply_runtime_failure r (policy r.metadata) now reason is_timeout).0
  failed-Updates reason is_timeout now r =
      let kept = apply_runtime_failure-SameUse (policy r.metadata) r now reason is_timeout in
      record {
        metadata = kept.metadata;
        in_use = λ _. kept.in_use;
        health = λ c. apply_runtime_failure-IsConsistent r c now reason is_timeout;
      }

  pub refresh-Updates :
      (now : DateTime) (r : ConnectionRecord Metadata)
      → Updates false r (reconcile_timed_state r (policy r.metadata) now)
  refresh-Updates now r =
      let kept = reconcile_timed_state-SameUse (policy r.metadata) r now in
      record {
        metadata = kept.metadata;
        in_use = λ _. kept.in_use;
        health = λ c. reconcile_timed_state-IsConsistent r now c;
      }
