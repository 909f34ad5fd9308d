-- ===== src/Core/Cache.antt =====
-- The cache of a node's outputs, crates/core/src/cache.rs: a slot for each data output pin. The watchers
-- of a slot see its last value; who waits is left out.
use nazh.Base.{
  ℕ, ◌+◌, ◌-◌, ◌/◌, Bool, true, false, not, Option, none, some, String, List, [], ◌∷◌, Dict, lookup,
  insert, contains_key, ltb, if◌then◌else◌,
}
use nazh.Base.Options.{◌>>=◌}
use nazh.Json.{JsonNumber, Value, value_eq}
use nazh.Connections.Types.{DateTime}
pub mod Latest

pub record CachedOutput (N : Type 0) : Type 0 where
  pub value : Value N
  pub produced_at : DateTime
  pub trace_id : String

-- the field `slots`; a slot that was never written has none
abbrev pub OutputCache : Type 0 → Type 0
OutputCache N = Dict (Option (CachedOutput N))

-- the whole milliseconds between two times in nanoseconds, whichever is earlier: `unsigned_abs` of
-- `num_milliseconds`, which drops the fraction
abbrev pub age_ms : DateTime → DateTime → ℕ
age_ms now produced_at = ((now - produced_at) + (produced_at - now)) / 1000000

module _ {N : Type 0} where
  unfoldable pub prepare_slot : String → OutputCache N → OutputCache N
  prepare_slot pin_id slots = if contains_key pin_id slots then slots else insert pin_id none slots

  abbrev pub expired : Option ℕ → DateTime → CachedOutput N → Bool
  expired none now cached = false
  expired (some ttl) now cached = ltb ttl (age_ms now cached.produced_at)

  unfoldable pub read : String → Option ℕ → DateTime → OutputCache N → Option (CachedOutput N)
  read pin_id ttl_ms now slots = do
    slot ← lookup pin_id slots
    cached ← slot
    if expired ttl_ms now cached then none else some cached

  -- the receiver sees what the slot holds
  abbrev pub subscribe : String → OutputCache N → Option (Option (CachedOutput N))
  subscribe pin_id slots = lookup pin_id slots

  abbrev pub slot_ids : OutputCache N → List String
  slot_ids [] = []
  slot_ids ((pin_id, _) ∷ slots) = pin_id ∷ slot_ids slots

module _ (J : JsonNumber) where
  open J use {Number}

  -- `is_none_or(|old| old.value != output.value)`
  abbrev pub differs : Option (CachedOutput Number) → CachedOutput Number → Bool
  differs none output = true
  differs (some old) output = not (value_eq J old.value output.value)

  unfoldable pub write :
      String → CachedOutput Number → OutputCache Number → Bool × OutputCache Number
  write pin_id output slots = elim (lookup pin_id slots) [
    | none ↦ (false, slots)
    | some slot ↦ (differs slot output, insert pin_id (some output) slots)
  ]

  abbrev pub write_now :
      String → Value Number → String → DateTime → OutputCache Number → Bool × OutputCache Number
  write_now pin_id value trace_id now slots =
      write pin_id (record { value = value; produced_at = now; trace_id = trace_id }) slots
