-- ===== src/Core/Tests.antt =====
-- Runs of the data store and of the output cache.
use nazh.Base.{
  ◌+◌, ◌<◌, ◌↔◌, contains_key, ◌≡◌, String, insert, refl, max, none, some, List, [], ◌∷◌, inl, inr,
  if◌then◌else◌, length, ltb, arith,
}
use nazh.Json.{string}
use nazh.Core.Variables.Tests.{zero_number}
use nazh.Core.Data.{
  ArenaDataStore, with_capacity, write, is_full, insert_entry, read, data_not_found, DataOp, put,
  done_with, apply_all,
}
use nazh.Core.Data.Lifetime.{releases, read-after_releases}
use nazh.Core.Data.Capacity.{
  Writer, SharedStep, test, put_one, shared, step, run, peak, stored_within_capacity,
}
use nazh.Core.Cache.{CachedOutput, prepare_slot, read as read_cache, write as write_cache}
use nazh.Core.Cache.Latest.{Fresh, read-write}

abbrev two_places : ArenaDataStore Unit
two_places = with_capacity 2

taken : (write "a" (string "x") 2 two_places).0 ≡ inr "a"
unfolding write is_full
taken = refl

-- one release of the two that "a" waits for
abbrev calls : List (DataOp Unit)
calls = put "b" (string "y") 0 ∷ done_with "a" ∷ put "c" (string "z") 1 ∷ done_with "b" ∷ []

read-after_releases_example :
    read "a" (apply_all calls (write "a" (string "x") 2 two_places).1)
    ≡ (if ltb (releases "a" calls) (max 2 1) then inr (string "x") else inl (data_not_found "a"))
read-after_releases_example =
    read-after_releases "a" (string "x") 2 calls two_places taken (refl, (refl, tt))

abbrev writer : String → Writer Unit
writer id = record { id = id; payload = string "z"; consumers = 1 }

-- two tasks test a store with one place before either of them inserts
abbrev overlapping : List (SharedStep Unit)
overlapping = test (writer "a") ∷ test (writer "b") ∷ put_one 0 ∷ put_one 0 ∷ []

two_in_one_place :
    (length (run overlapping (shared 1)).store.entries ≡ 2) × (peak overlapping (shared 1) ≡ 2)
unfolding run step insert_entry peak insert is_full
two_in_one_place = (refl, refl)

stored_within_capacity_example :
    let after = run overlapping (shared 1) in
    length after.store.entries + length after.writers < 1 + max 1 (peak overlapping (shared 1))
stored_within_capacity_example = stored_within_capacity 1 overlapping (omega arith)

abbrev output : CachedOutput Unit
output = record { value = string "on"; produced_at = 1000000; trace_id = "t" }

-- a read 3 ms later, with a limit of 2 ms
read-write_example :
    let after = (write_cache zero_number "out" output (prepare_slot "out" [])).1 in
    ((read_cache "out" (some 2) 4000000 after ≡ some output)
      ↔ Fresh zero_number (some 2) 4000000 1000000)
    × ((read_cache "out" (some 2) 4000000 after ≡ none)
        ↔ ¬ Fresh zero_number (some 2) 4000000 1000000)
    × (read_cache "in" (some 2) 4000000 after ≡ read_cache "in" (some 2) 4000000 [])
read-write_example = read-write zero_number "out" "in" output (some 2) 4000000 [] refl

-- a nanosecond earlier it is still read
last_read :
    read_cache "out"
      (some 2)
      3999999
      (write_cache zero_number "out" output (prepare_slot "out" [])).1
    ≡ some output
unfolding read_cache write_cache prepare_slot insert contains_key
last_read = refl
