-- ===== src/Core/Data.antt =====
-- The data plane, crates/core/src/data.rs: payloads that wait for their consumers. A `DashMap` is a
-- dictionary, and each call of it one step: `write` is two of them, the test of the capacity and the
-- insertion, and other tasks may run in between (Capacity). An identifier is the text of its UUID, which
-- `write` draws at random: here it is an argument.
use nazh.Base.{
  ℕ, ◌-◌, max, Bool, true, false, ◌&&◌, Option, none, some, String, List, [], ◌∷◌, ◌⊎◌, inl, inr,
  Dict, lookup, insert, remove, ltb, leb, ◌==◌, if◌then◌else◌, length,
}
use nazh.Json.{Value}
pub mod Lifetime
pub mod Capacity

pub data DataError : Type 0 where
  capacity_exceeded : ℕ → DataError
  data_not_found : String → DataError

pub record DataEntry (N : Type 0) : Type 0 where
  pub payload : Value N
  pub remaining : ℕ

pub record ArenaDataStore (N : Type 0) : Type 0 where
  pub entries : Dict (DataEntry N)
  pub capacity : ℕ  -- 0: no limit

module _ {N : Type 0} where
  abbrev pub with_capacity : ℕ → ArenaDataStore N
  with_capacity capacity = record { entries = []; capacity = capacity }

  -- the first step of `write`
  unfoldable pub is_full : ArenaDataStore N → Bool
  is_full store = ltb 0 store.capacity && leb store.capacity (length store.entries)

  -- its second step
  unfoldable pub insert_entry : String → Value N → ℕ → ArenaDataStore N → ArenaDataStore N
  insert_entry id payload consumers store = record store {
    entries = insert id (record { payload = payload; remaining = max consumers 1 }) store.entries;
  }

  -- the two steps, with no other task's step between them
  unfoldable pub write :
      String → Value N → ℕ → ArenaDataStore N → (DataError ⊎ String) × ArenaDataStore N
  unfolding is_full insert_entry
  write id payload consumers store =
      if is_full store
      then (inl (capacity_exceeded store.capacity), store)
      else (inr id, insert_entry id payload consumers store)

  -- `read`, and `read_mut`, whose value is a copy
  unfoldable pub read : String → ArenaDataStore N → DataError ⊎ Value N
  read id store = elim (lookup id store.entries) [
    | none ↦ inl (data_not_found id)
    | some entry ↦ inr entry.payload
  ]

  -- `remove_if`, with `fetch_sub` in its test
  unfoldable pub release : String → ArenaDataStore N → ArenaDataStore N
  release id store = elim (lookup id store.entries) [
    | none ↦ store
    | some entry ↦
        if entry.remaining == 1
        then record store { entries = remove id store.entries }
        else record store {
          entries = insert id (record entry { remaining = entry.remaining - 1 }) store.entries;
        }
  ]

-- the steps that change the entries: the insertion of a write, whenever its test came, and a release
pub data DataOp (N : Type 0) : Type 0 where
  put : String → Value N → ℕ → DataOp N
  done_with : String → DataOp N

module _ {N : Type 0} where
  unfoldable pub apply : DataOp N → ArenaDataStore N → ArenaDataStore N
  unfolding insert_entry release
  apply (put id payload consumers) store = insert_entry id payload consumers store
  apply (done_with id) store = release id store

  unfoldable pub apply_all : List (DataOp N) → ArenaDataStore N → ArenaDataStore N
  unfolding apply
  apply_all [] store = store
  apply_all (op ∷ ops) store = apply_all ops (apply op store)
