-- ===== src/Core/Data/Lifetime.antt =====
-- A payload lives until each of its consumers is done with it.
use nazh.Base.{
  ℕ, suc, ◌-◌, ◌≤◌, ◌≡◌, refl, sym, ◌∙◌, max, true, false, none, some, String, str_eq, List, [],
  ◌∷◌, inl, inr, lookup, lookup-insert, lookup-remove, ltb, ◌==◌, if◌then◌else◌, arith, eq_refl,
  eq_iff, Bool-cases, Option-cases,
}
use mathlib.Core.Path.{subst}
use nazh.Json.{Value}
use nazh.Core.Data.{
  data_not_found, DataEntry, ArenaDataStore, is_full, insert_entry, write, read, release, DataOp,
  put, done_with, apply, apply_all,
}

same_name : (key id : String) → str_eq key id ≡ true → key ≡ id
same_name key id h = ground (arith, eq_iff key id, h)

module _ {N : Type 0} where
  -- how often the consumers of `id` are done
  abbrev pub releases : String → List (DataOp N) → ℕ
  releases id [] = 0
  releases id (put _ _ _ ∷ ops) = releases id ops
  releases id (done_with key ∷ ops) =
      let rest = releases id ops in if str_eq key id then suc rest else rest

  -- that no call draws the identifier again
  abbrev pub Undrawn : String → List (DataOp N) → Type 0
  Undrawn id [] = Unit
  Undrawn id (put key _ _ ∷ ops) = (str_eq key id ≡ false) × Undrawn id ops
  Undrawn id (done_with _ ∷ ops) = Undrawn id ops

  abbrev holding : Value N → ℕ → DataEntry N
  holding payload remaining = record { payload = payload; remaining = remaining }

  insert_other :
      (id key : String) (payload : Value N) (consumers : ℕ) (store : ArenaDataStore N)
      → str_eq key id ≡ false
      → lookup id (insert_entry key payload consumers store).entries ≡ lookup id store.entries
  unfolding insert_entry
  insert_other id key payload consumers store other =
      ground (arith, other, lookup-insert key id (holding payload (max consumers 1)) store.entries)

  written_entry :
      (id : String) (payload : Value N) (consumers : ℕ) (store : ArenaDataStore N)
      → (write id payload consumers store).0 ≡ inr id
      → lookup id (write id payload consumers store).1.entries
        ≡ some (holding payload (max consumers 1))
  unfolding write is_full insert_entry
  written_entry id payload consumers store h =
      ground (
        arith,
        h,
        eq_refl id,
        lookup-insert id id (holding payload (max consumers 1)) store.entries,
      )

  release_other :
      (id key : String) (store : ArenaDataStore N)
      → str_eq key id ≡ false
      → lookup id (release key store).entries ≡ lookup id store.entries
  unfolding release
  release_other id key store other = elim (Option-cases (lookup key store.entries)) [
    | inl e ↦ rw (e, release) refl
    | inr (entry, e) ↦
        rw (e, release) ground
          (
            arith,
            other,
            lookup-remove key id store.entries,
            lookup-insert key id (record entry { remaining = entry.remaining - 1 }) store.entries,
          )
  ]

  release_self :
      (id : String) (payload : Value N) (r : ℕ) (store : ArenaDataStore N)
      → lookup id store.entries ≡ some (holding payload r)
      → lookup id (release id store).entries
        ≡ (if r == 1 then none else some (holding payload (r - 1)))
  unfolding release
  release_self id payload r store e =
      rw (e, release) ground
        (
          arith,
          eq_refl id,
          lookup-remove id id store.entries,
          lookup-insert id id (holding payload (r - 1)) store.entries,
        )

  release_gone :
      (id : String) (store : ArenaDataStore N)
      → lookup id store.entries ≡ none
      → lookup id (release id store).entries ≡ none
  unfolding release
  release_gone id store e = rw (e, release) e

  gone_stays :
      (id : String) (ops : List (DataOp N)) (store : ArenaDataStore N)
      → Undrawn id ops
      → lookup id store.entries ≡ none
      → lookup id (apply_all ops store).entries ≡ none
  unfolding apply_all apply
  gone_stays id [] store new e = e
  gone_stays id (put key payload n ∷ ops) store new e =
      gone_stays id ops (insert_entry key payload n store) new.1
        (insert_other id key payload n store new.0 ∙ e)
  gone_stays id (done_with key ∷ ops) store new e = elim (Bool-cases (str_eq key id)) [
    | inl same ↦ gone_stays id ops (release key store) new (
        subst (λ k. lookup id (release k store).entries ≡ none) (sym (same_name key id same))
          (release_gone id store e))
    | inr other ↦ gone_stays id ops (release key store) new (release_other id key store other ∙ e)
  ]

  counted_down :
      (id : String) (payload : Value N) (r : ℕ) (ops : List (DataOp N)) (store : ArenaDataStore N)
      → Undrawn id ops
      → 1 ≤ r
      → lookup id store.entries ≡ some (holding payload r)
      → lookup id (apply_all ops store).entries
        ≡ (if ltb (releases id ops) r then some (holding payload (r - releases id ops)) else none)
  unfolding apply_all apply
  counted_down id payload r [] store new pos e = e ∙ ground (arith, pos)
  counted_down id payload r (put key other n ∷ ops) store new pos e =
      counted_down id payload r ops (insert_entry key other n store) new.1 pos
        (insert_other id key other n store new.0 ∙ e)
  counted_down id payload r (done_with key ∷ ops) store new pos e =
      elim (Bool-cases (str_eq key id)) [
        | inr other ↦
            counted_down id payload r ops (release key store) new pos
              (release_other id key store other ∙ e)
            ∙ rw other refl
        | inl same ↦
            let step : lookup id (release key store).entries
                ≡ (if r == 1 then none else some (holding payload (r - 1))) =
              subst
                (λ k.
                  lookup id (release k store).entries
                  ≡ (if r == 1 then none else some (holding payload (r - 1))))
                (sym (same_name key id same)) (release_self id payload r store e) in
            elim (Bool-cases (r == 1)) [
              | inl one ↦
                  gone_stays id ops (release key store) new (step ∙ rw one refl)
                  ∙ ground (arith, same, one)
              | inr more ↦
                  counted_down id payload (r - 1) ops (release key store) new
                    (ground (arith, more, pos)) (step ∙ rw more refl)
                  ∙ ground (arith, same, more, pos)
            ]
      ]

  -- A payload that was written for n consumers (one, if n is 0) can be read after any insertions and
  -- releases, of which none draws its identifier again, as long as fewer than that many releases of it are among them;
  -- afterwards it is not found.
  pub read-after_releases :
      (id : String) (payload : Value N) (consumers : ℕ) (ops : List (DataOp N))
      (store : ArenaDataStore N)
      → (write id payload consumers store).0 ≡ inr id
      → Undrawn id ops
      → read id (apply_all ops (write id payload consumers store).1)
        ≡ (if ltb (releases id ops) (max consumers 1) then inr payload else inl (data_not_found id))
  unfolding read
  read-after_releases id payload consumers ops store written new =
      let left =
        counted_down id payload (max consumers 1) ops (write id payload consumers store).1 new
          (omega arith) (written_entry id payload consumers store written) in
      rw (left, read) (ground arith)
