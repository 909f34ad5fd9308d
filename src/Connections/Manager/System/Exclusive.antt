-- ===== src/Connections/Manager/System/Exclusive.antt =====
-- Who holds a connection: at most one guard for a record (guard.rs, manager/mod.rs), as long as no
-- operation clears `in_use` by force; and what happens when one does.
use nazh.Base.{
  All, ℕ, zero, suc, ◌+◌, ◌≤◌, false, some, String, List, [], ◌∷◌, ◌≡◌, refl, sym, ◌∙◌, inl, inr,
  Option-cases, if◌then◌else◌, ◌==◌, get_elem?, set, arith,
}
use nazh.Connections.Types.{DateTime, ConnectionLease, ConnectionRecord}
use nazh.Connections.Health.{finalize_release}
use nazh.Connections.Health.Frame.{finalize_release-IsReleased}
use nazh.Connections.Governance.{Governance}
use nazh.Connections.Manager.State.{
  ConnectionGuard, Result, ok, err, mark_success, mark_failure, with_record,
}
use nazh.Connections.Manager.Acquire.{Acquisition, acquire_record, acquire_at, guard_of, drop_guard}
use nazh.Connections.Manager.Acquire.Cases.{is_ok, IsAcquired, acquire_record-IsAcquired}
use nazh.Connections.Manager.System.{
  System, Op, acquire, drop, succeed, fail, invalidate, disconnect, all_idle, is_forced, remove_at,
  update_at, hand_out, run, run_all, start,
}
use nazh.Connections.Manager.System.Heap.{used, used-set, used-get, used-append, used-none}
use nazh.Connections.Manager.System.Changes.{Changes, same, rewrite, grow, after}
use nazh.Connections.Manager.System.Sound.{report-Changes}

-- how many of the guards that are out hold the record at an address
abbrev pub holders : {M : Type 0} → List (ConnectionGuard M) → ℕ → ℕ
holders [] a = 0
holders (g ∷ gs) a = (if g.entry == a then 1 else 0) + holders gs a

module _ {M : Type 0} where
  holders-update :
      (f : ConnectionGuard M → ConnectionGuard M) (gs : List (ConnectionGuard M)) (i a : ℕ)
      → ((g : ConnectionGuard M) → (f g).entry ≡ g.entry)
      → holders (update_at f gs i) a ≡ holders gs a
  holders-update f [] i a h = refl
  holders-update f (g ∷ gs) zero a h = rw (h g)
  holders-update f (g ∷ gs) (suc i) a h = rw (holders-update f gs i a h)

  holders-remove :
      (gs : List (ConnectionGuard M)) (i a : ℕ) (g : ConnectionGuard M)
      → get_elem? gs i ≡ some g
      → (if g.entry == a then 1 else 0) + holders (remove_at gs i) a ≡ holders gs a
  holders-remove [] i a g h = absurd (ground arith)
  holders-remove (x ∷ gs) zero a g h = ground arith
  holders-remove (x ∷ gs) (suc i) a g h = ground (arith, holders-remove gs i a g h)

  used-le : (h : List (ConnectionRecord M)) (a : ℕ) → used h a ≤ 1
  used-le [] a = omega arith
  used-le (r ∷ h) zero = ground arith
  used-le (r ∷ h) (suc a) = used-le h a

module _ (G : Governance) where
  open G use {Metadata, policy}

  -- each record's mark counts the guards that hold it
  abbrev Counts : System Metadata → Type 0
  Counts s = (a : ℕ) → holders s.guards a ≡ used s.manager.heap a

  Changes-used :
      {h k : List (ConnectionRecord Metadata)} (a : ℕ) → Changes G false h k → used k a ≡ used h a
  Changes-used a (same e) = rw e
  Changes-used {h = h} a (rewrite i r t at u e) =
      ground (arith, used-set h i r t a at, used-get h i r at, u.in_use refl)
  Changes-used {h = h} a (grow r fresh e) = rw e (used-append h r a fresh.free)
  Changes-used a (after c d) = Changes-used a d ∙ Changes-used a c

  holders-hand_out :
      (addr : ℕ) (result : Result (ConnectionLease Metadata)) (gs : List (ConnectionGuard Metadata))
      (a : ℕ)
      → holders (hand_out G (guard_of G addr result) gs) a
        ≡ (if is_ok result then (if addr == a then 1 else 0) else 0) + holders gs a
  holders-hand_out addr (ok lease) gs a = refl
  holders-hand_out addr (err e) gs a = omega arith

  acquire-Counts :
      (id : String) (addr : ℕ) (now : DateTime) (s : System Metadata)
      → Counts s
      → Counts (run G (acquire id addr now) s)
  unfolding run acquire_at
  acquire-Counts id addr now s c a = elim (Option-cases (get_elem? s.manager.heap addr)) [
    | inl e ↦ rw (e, acquire_at) (c a)
    | inr (r, e) ↦
        rw (e, acquire_at)
          (count r (acquire_record G id now _ r) e (acquire_record-IsAcquired G id now _ r))
  ]
    where
      count :
          (r : ConnectionRecord Metadata) (acq : Acquisition G)
          → get_elem? s.manager.heap addr ≡ some r
          → IsAcquired G r acq
          → holders (hand_out G (guard_of G addr acq.result) s.guards) a
            ≡ used (set s.manager.heap addr acq.record_after) a
      count r acq e q = ground (
        arith,
        holders-hand_out addr acq.result s.guards a,
        used-set s.manager.heap addr r acq.record_after a e,
        used-get s.manager.heap addr r e,
        c a,
        q.was_free,
        q.mark,
      )

  drop-Counts :
      (i : ℕ) (now : DateTime) (s : System Metadata) → Counts s → Counts (run G (drop i now) s)
  unfolding run drop_guard with_record
  drop-Counts i now s c a = elim (Option-cases (get_elem? s.guards i)) [
    | inl e ↦ rw (e, run) (c a)
    | inr (g, e) ↦ rw (e, run) (freed g e)
  ]
    where
      freed :
          (g : ConnectionGuard Metadata)
          → get_elem? s.guards i ≡ some g
          → holders (remove_at s.guards i) a ≡ used (drop_guard G g now s.manager).heap a
      freed g e = elim (Option-cases (get_elem? s.manager.heap g.entry)) [
        | inl gone ↦ ground (
          arith,
          holders-remove s.guards i g.entry g e,
          used-none s.manager.heap g.entry gone,
          c g.entry,
        )
        | inr (r, there) ↦
            let released =
              finalize_release r (policy r.metadata) g.lease.borrowed_at g.outcome now in
            let free =
              (finalize_release-IsReleased (policy r.metadata) r g.lease.borrowed_at g.outcome
                now).free in
            rw (there, with_record)
              (ground (
                arith,
                holders-remove s.guards i a g e,
                used-set s.manager.heap g.entry r released a there,
                used-le s.manager.heap a,
                free,
                c a,
              ))
      ]

  run-Counts :
      (op : Op Metadata) (s : System Metadata)
      → is_forced op ≡ false
      → Counts s
      → Counts (run G op s)
  unfolding run mark_success mark_failure
  run-Counts (acquire id addr now) s calm c = acquire-Counts id addr now s c
  run-Counts (drop i now) s calm c = drop-Counts i now s c
  run-Counts (succeed i) s calm c = λ a. holders-update mark_success s.guards i a (λ g. refl) ∙ c a
  run-Counts (fail i reason) s calm c =
      λ a. holders-update (mark_failure reason) s.guards i a (λ g. refl) ∙ c a
  run-Counts (invalidate id reason now) s calm c = absurd (cc)
  run-Counts (disconnect id note now) s calm c = absurd (cc)
  run-Counts (all_idle note now) s calm c = absurd (cc)
  run-Counts op s calm c = λ a. c a ∙ sym (Changes-used a (report-Changes G op s refl))

  run_all-Counts :
      (ops : List (Op Metadata)) (s : System Metadata)
      → All (λ (op : Op Metadata). is_forced op ≡ false) ops
      → Counts s
      → Counts (run_all G ops s)
  unfolding run_all
  run_all-Counts [] s calm c = c
  run_all-Counts (op ∷ ops) s calm c =
      run_all-Counts ops (run G op s) calm.1 (run-Counts op s calm.0 c)

  -- After any sequence of operations on an empty manager, none of which is `mark_invalid_configuration`,
  -- `mark_disconnected` or `mark_all_idle`, at most one guard holds a record, and a record says that it
  -- is in use exactly if a guard holds it.
  pub at_most_one_guard :
      (ops : List (Op Metadata)) (a : ℕ)
      → All (λ (op : Op Metadata). is_forced op ≡ false) ops
      → (holders (run_all G ops (start G)).guards a ≤ 1)
        × (holders (run_all G ops (start G)).guards a
            ≡ used (run_all G ops (start G)).manager.heap a)
  at_most_one_guard ops a calm =
      let c = run_all-Counts ops (start G) calm (λ b. refl) a in
      (rw c (used-le (run_all G ops (start G)).manager.heap a), c)
