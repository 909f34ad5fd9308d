-- ===== src/Graph/Pull/Payload.antt =====
-- How pull/collector.rs reads and merges payloads.
use nazh.Base.{Option, none, some, String, str_eq, List, [], ◌∷◌, ◌⊎◌, inl, inr, if◌then◌else◌}
use nazh.Json.{Value, object, Fields, end, field, get_field}
use nazh.Graph.Pull.{PullError, data_pin_cache_empty}

module _ {N : Type 0} where
  -- `Map::insert`
  unfoldable pub set_field : String → Value N → Fields N → Fields N
  set_field k v end = field k v end
  set_field k v (field j w fs) =
      let rest = set_field k v fs in if str_eq j k then field j v fs else field j w rest

  unfoldable pub set_fields : Fields N → Fields N → Fields N
  unfolding set_field
  set_fields end map = map
  set_fields (field k v fs) map = set_fields fs (set_field k v map)

  unfoldable pub merge_payload : Value N → Fields N → Value N
  unfolding set_fields
  merge_payload (object map) data_values = object (set_fields data_values map)
  merge_payload other data_values = object (set_field "in" other data_values)

  unfoldable pub extract_pin : Value N → String → Option (Value N)
  unfolding get_field
  extract_pin (object map) pin_id = get_field pin_id map
  extract_pin _ pin_id = none

  -- the loop over the outputs for one that has the pin
  unfoldable pub find_output : String → List (Value N) → Option (Value N)
  find_output pin [] = none
  find_output pin (payload ∷ payloads) = elim (extract_pin payload pin) [
    | some v ↦ some v
    | none ↦ find_output pin payloads
  ]

  -- the value of a pin in the outputs of a transform, the first payload if no output has the pin
  unfoldable pub pick_output : String → String → List (Value N) → PullError ⊎ Value N
  pick_output node pin payloads = elim (find_output pin payloads) [
    | some v ↦ inr v
    | none ↦ elim payloads [ [] ↦ inl (data_pin_cache_empty node pin) | first ∷ _ ↦ inr first ]
  ]
