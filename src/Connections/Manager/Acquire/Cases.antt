-- ===== src/Connections/Manager/Acquire/Cases.antt =====
-- What `acquire` does to the record that it locks, on every branch.
use nazh.Base.{
  if_elim, ap, Bool, false, true, Option, none, some, String, List, ◌≡◌, ◌∙◌, sym, arith,
  if◌then◌else◌, bump_u32,
}
use nazh.Connections.Types.{DateTime, Message, ConnectionRecord}
use nazh.Connections.Health.{mark_invalid}
use nazh.Connections.Health.Reconcile.{reconcile_timed_state}
use nazh.Connections.Health.Frame.{SameUse, reconcile_timed_state-SameUse}
use nazh.Connections.Health.Invariant.{
  IsConsistent, reconcile_timed_state-IsConsistent, mark_invalid-IsConsistent,
}
use nazh.Connections.Governance.{Governance}
use nazh.Connections.Manager.State.{Result, ok, err}
use nazh.Connections.Manager.Acquire.{
  Acquisition, admit, pass_deadlines, check_definition, acquire_record,
}

abbrev pub is_ok : {A : Type 0} → Result A → Bool
is_ok (ok _) = true
is_ok (err _) = false

module _ (G : Governance) where
  open G use {Metadata, policy, validate}

  abbrev pub IsSound : ConnectionRecord Metadata → Type 0
  IsSound r = IsConsistent (policy r.metadata) r.health

  -- A lease is given only for a record that is free, and marks it; a refusal leaves the mark alone.
  pub record IsAcquired (r : ConnectionRecord Metadata) (a : Acquisition G) : Type 0 where
    pub metadata : a.record_after.metadata ≡ r.metadata
    pub was_free : is_ok a.result ≡ true → r.in_use ≡ false
    pub mark : a.record_after.in_use ≡ (if is_ok a.result then true else r.in_use)

  after_reconcile :
      (r c : ConnectionRecord Metadata) (a : Acquisition G)
      → SameUse r c
      → IsAcquired c a
      → IsAcquired r a
  after_reconcile r c a same h = record {
    metadata = h.metadata ∙ same.metadata;
    was_free = λ e. sym same.in_use ∙ h.was_free e;
    mark = h.mark ∙ ap (λ b. if is_ok a.result then true else b) same.in_use;
  }

  module _ (id : String) (now : DateTime) (window : List DateTime) where
    admit-IsAcquired :
        (r : ConnectionRecord Metadata) → r.in_use ≡ false → IsAcquired r (admit G id now window r)
    unfolding admit
    admit-IsAcquired r free = ground arith

    pass_deadlines-IsAcquired :
        (r : ConnectionRecord Metadata)
        → r.in_use ≡ false
        → IsAcquired r (pass_deadlines G id now window r)
    unfolding pass_deadlines
    pass_deadlines-IsAcquired r free = ground (arith, admit-IsAcquired r free)

    check_definition-IsAcquired :
        (checked : Option Message) (r : ConnectionRecord Metadata)
        → r.in_use ≡ false
        → IsAcquired r (check_definition G checked id now window r)
    unfolding check_definition mark_invalid
    check_definition-IsAcquired none r free = pass_deadlines-IsAcquired r free
    check_definition-IsAcquired (some reason) r free = ground arith

    pub acquire_record-IsAcquired :
        (r : ConnectionRecord Metadata) → IsAcquired r (acquire_record G id now window r)
    unfolding acquire_record
    acquire_record-IsAcquired r =
        let current = reconcile_timed_state r (policy r.metadata) now in
        let same = reconcile_timed_state-SameUse (policy r.metadata) r now in
        if_elim (IsAcquired r) current.in_use (λ e. ground (arith, same))
          λ e.
            after_reconcile r current _ same
              (check_definition-IsAcquired (validate current.kind current.metadata) current e)

    admit-IsSound :
        (r : ConnectionRecord Metadata) → IsSound r → IsSound (admit G id now window r).record_after
    unfolding admit bump_u32
    admit-IsSound r h = ground arith

    pass_deadlines-IsSound :
        (r : ConnectionRecord Metadata)
        → IsSound r
        → IsSound (pass_deadlines G id now window r).record_after
    unfolding pass_deadlines
    pass_deadlines-IsSound r h = ground (arith, admit-IsSound r h)

    check_definition-IsSound :
        (checked : Option Message) (r : ConnectionRecord Metadata)
        → IsSound r
        → IsSound (check_definition G checked id now window r).record_after
    unfolding check_definition mark_invalid
    check_definition-IsSound none r h = pass_deadlines-IsSound r h
    check_definition-IsSound (some reason) r h = mark_invalid-IsConsistent r h reason now

    pub acquire_record-IsSound :
        (r : ConnectionRecord Metadata)
        → IsSound r
        → IsSound (acquire_record G id now window r).record_after
    unfolding acquire_record
    acquire_record-IsSound r h =
        let current = reconcile_timed_state r (policy r.metadata) now in
        let same = reconcile_timed_state-SameUse (policy r.metadata) r now in
        let kept : IsSound current =
          rw same.metadata (reconcile_timed_state-IsConsistent r now h) in
        if_elim (λ (a : Acquisition G). IsSound a.record_after) current.in_use (λ e. kept)
          λ e. check_definition-IsSound (validate current.kind current.metadata) current kept
