-- ===== src/Core/Data/Capacity.antt =====
-- How many payloads a store holds while tasks write to it at the same time: the test of the capacity and
-- the insertion of `write` are two steps.
use nazh.Base.{
  ℕ, zero, suc, ◌+◌, ◌-◌, ◌≤◌, ◌<◌, ◌≡◌, ◌∙◌, refl, max, Option, none, some, String, List, [], ◌∷◌,
  inl, inr, Dict, lookup, insert, remove, length, arith, Option-cases, Bool-cases, if◌then◌else◌,
}
use nazh.Json.{Value}
use nazh.Core.Data.{ArenaDataStore, with_capacity, is_full, insert_entry, release}

module _ {ℓ} {V : Type ℓ} where
  length-remove : (key : String) (entries : Dict V) → length (remove key entries) ≤ length entries
  unfolding remove
  length-remove key [] = omega arith
  length-remove key (entry ∷ entries) = ground (arith, length-remove key entries)

  length-insert :
      (key : String) (value : V) (entries : Dict V)
      → length (insert key value entries) ≤ suc (length entries)
  unfolding insert
  length-insert key value [] = omega arith
  length-insert key value (entry ∷ entries) = ground (arith, length-insert key value entries)

  -- an entry that is there is replaced
  length-replace :
      (key : String) (value old : V) (entries : Dict V)
      → lookup key entries ≡ some old
      → length (insert key value entries) ≡ length entries
  unfolding insert lookup
  length-replace key value old [] h = ground arith
  length-replace key value old (entry ∷ entries) h =
      ground (arith, length-replace key value old entries)

-- a task that has passed the test of `write` and has not inserted its entry yet
pub record Writer (N : Type 0) : Type 0 where
  pub id : String
  pub payload : Value N
  pub consumers : ℕ

-- the store with the tasks that are within a `write`
pub record SharedStore (N : Type 0) : Type 0 where
  pub store : ArenaDataStore N
  pub writers : List (Writer N)

-- the steps of tasks: the first and the second step of a `write`, and a release
pub data SharedStep (N : Type 0) : Type 0 where
  test : Writer N → SharedStep N
  put_one : ℕ → SharedStep N
  drop : String → SharedStep N

module _ {N : Type 0} where
  abbrev pub shared : ℕ → SharedStore N
  shared capacity = record { store = with_capacity capacity; writers = [] }

  -- the writer at a place of the list, and the others
  unfoldable take_out : ℕ → List (Writer N) → Option (Writer N × List (Writer N))
  take_out n [] = none
  take_out zero (w ∷ ws) = some (w, ws)
  take_out (suc n) (w ∷ ws) = elim (take_out n ws) [
    | none ↦ none
    | some (v, rest) ↦ some (v, w ∷ rest)
  ]

  length-take_out :
      (n : ℕ) (ws rest : List (Writer N)) (w : Writer N)
      → take_out n ws ≡ some (w, rest)
      → length ws ≡ suc (length rest)
  unfolding take_out
  length-take_out n [] rest w h = absurd (ground (arith, h))
  length-take_out zero (v ∷ ws) rest w h = ground (arith, h)
  length-take_out (suc n) (v ∷ ws) rest w h = elim (Option-cases (take_out n ws)) [
    | inl e ↦ absurd (ground (arith, h, e))
    | inr ((u, others), e) ↦ ground (arith, h, e, length-take_out n ws others u e)
  ]

  unfoldable pub step : SharedStep N → SharedStore N → SharedStore N
  unfolding is_full insert_entry release take_out
  step (test w) s = if is_full s.store then s else record s { writers = w ∷ s.writers }
  step (put_one n) s = elim (take_out n s.writers) [
    | none ↦ s
    | some (w, rest) ↦ record {
      store = insert_entry w.id w.payload w.consumers s.store;
      writers = rest;
    }
  ]
  step (drop id) s = record s { store = release id s.store }

  unfoldable pub run : List (SharedStep N) → SharedStore N → SharedStore N
  unfolding step
  run [] s = s
  run (op ∷ ops) s = run ops (step op s)

  -- the most writes that are between their test and their insertion at once in a run
  unfoldable pub peak : List (SharedStep N) → SharedStore N → ℕ
  unfolding step
  peak [] s = length s.writers
  peak (op ∷ ops) s = max (length s.writers) (peak ops (step op s))

  writers-le-peak : (ops : List (SharedStep N)) (s : SharedStore N) → length s.writers ≤ peak ops s
  unfolding peak
  writers-le-peak [] s = omega arith
  writers-le-peak (op ∷ ops) s = omega arith

  -- with at most `most` writes under way at once
  record IsWithin (most : ℕ) (s : SharedStore N) : Type 0 where
    limited : 0 < s.store.capacity
    bound : length s.store.entries + length s.writers < s.store.capacity + most

  length-release :
      (id : String) (store : ArenaDataStore N)
      → (length (release id store).entries ≤ length store.entries)
        × ((release id store).capacity ≡ store.capacity)
  unfolding release
  length-release id store = elim (Option-cases (lookup id store.entries)) [
    | inl e ↦ rw (e, release) ground arith
    | inr (entry, e) ↦
        rw (e, release) ground
          (
            arith,
            length-remove id store.entries,
            length-replace id (record entry { remaining = entry.remaining - 1 }) entry store.entries
                e,
          )
  ]

  step-IsWithin :
      (most : ℕ) (op : SharedStep N) (s : SharedStore N)
      → length (step op s).writers ≤ most
      → IsWithin most s
      → IsWithin most (step op s) × ((step op s).store.capacity ≡ s.store.capacity)
  unfolding step is_full insert_entry
  step-IsWithin most (test w) s few h = elim (Bool-cases (is_full s.store)) [
    | inl full ↦ rw (full, step) (h, refl)
    | inr room ↦
        let fewer : suc (length s.writers) ≤ most = ground (arith, few, room) in
        rw (room, step)
          (record { limited = h.limited; bound = ground (arith, h.limited, room, fewer) }, refl)
  ]
  step-IsWithin most (put_one n) s few h = elim (Option-cases (take_out n s.writers)) [
    | inl e ↦ rw (e, step) (h, refl)
    | inr ((w, rest), e) ↦
        rw (e, step)
          (
            record {
              limited = h.limited;
              bound = omega (
                arith,
                h.bound,
                length-take_out n s.writers rest w e,
                length-insert w.id (record { payload = w.payload; remaining = max w.consumers 1 })
                    s.store.entries,
              );
            },
            refl,
          )
  ]
  step-IsWithin most (drop id) s few h =
      let (fewer, same) = length-release id s.store in
      (
        record {
          limited = omega (arith, h.limited, same);
          bound = omega (arith, h.bound, fewer, same);
        },
        same,
      )

  run-IsWithin :
      (most : ℕ) (ops : List (SharedStep N)) (s : SharedStore N)
      → peak ops s ≤ most
      → IsWithin most s
      → IsWithin most (run ops s) × ((run ops s).store.capacity ≡ s.store.capacity)
  unfolding run peak
  run-IsWithin most [] s few h = (h, refl)
  run-IsWithin most (op ∷ ops) s few h =
      let later : peak ops (step op s) ≤ most = omega arith in
      let (kept, same) =
        step-IsWithin most op s (omega (arith, writers-le-peak ops (step op s))) h in
      let (within, capacity) = run-IsWithin most ops (step op s) later kept in
      (within, capacity ∙ same)

  -- In every interleaving of writes and releases on a store with a positive capacity, the entries and
  -- the writes between their test and their insertion stay below the capacity plus the most writes that
  -- were so at once (or one, if there was none); so the capacity is kept if at most one ever is.
  pub stored_within_capacity :
      (capacity : ℕ) (ops : List (SharedStep N))
      → 0 < capacity
      → let after = run ops (shared capacity) in
        length after.store.entries + length after.writers
        < capacity + max 1 (peak ops (shared capacity))
  stored_within_capacity capacity ops pos =
      let (within, same) =
        run-IsWithin (max 1 (peak ops (shared capacity))) ops (shared capacity) (omega arith)
          (record { limited = pos; bound = omega arith }) in
      omega (arith, within.bound, same)
