-- ===== src/Core/Variables/Tests.antt =====
-- Runs of the variables of a workflow: a text that is written, swapped and reset.
use nazh.Base.{
  ℕ, ◌≡◌, ◌≤◌, refl, true, false, none, some, String, List, [], ◌∷◌, inr, lookup, insert, u64_max,
  arith,
}
use nazh.Json.{JsonNumber, string, number, value_eq}
use nazh.Core.Pin.{PinType, pin_type_matches_value}
use nazh.Core.Variables.{
  VariableDeclaration, WorkflowVariables, from_declarations, new_variable, reset, compare_and_swap,
  VariableOp, inject, write_value, swap, apply_all,
}
use nazh.Core.Variables.Typed.{AllTyped, variables-AllTyped}
use nazh.Core.Variables.Swaps.{one_swap_wins, reset_restores}

pub zero-le : (v : ℕ) → some 0 ≡ some v → v ≤ u64_max
zero-le v h = ground arith

-- numbers of one value only: the runs use texts
abbrev pub zero_number : JsonNumber
zero_number = record {
  Number = Unit;
  is_i64 = λ n. true;
  is_u64 = λ n. true;
  as_u64 = λ n. some 0;
  equal = λ m n. true;
  as_u64_range = λ n. zero-le;
  is_u64_iff = λ n. refl;
  equal_refl = λ n. refl;
}

abbrev mode : VariableDeclaration Unit
mode = record { variable_type = PinType.string; initial = string "off" }

abbrev declared : WorkflowVariables Unit
declared = record {
  inner = ("mode", new_variable zero_number mode 1) ∷ [];
  event_sink = none;
  sent = [];
}

mode-declared : from_declarations zero_number (("mode", mode) ∷ []) 1 ≡ inr declared
unfolding from_declarations pin_type_matches_value insert
mode-declared = refl

abbrev session : List (VariableOp Unit)
session =
    inject "flow"
    ∷ write_value "mode" (string "on") (some "node") 2
    ∷ write_value "mode" (number tt) none 3
    ∷ swap "mode" (string "on") (string "idle") none 4
    ∷ []

variables-AllTyped_example : AllTyped zero_number (apply_all zero_number session declared).inner
variables-AllTyped_example =
    variables-AllTyped zero_number (("mode", mode) ∷ []) 1 declared session mode-declared

mode_there : lookup "mode" declared.inner ≡ some (new_variable zero_number mode 1)
unfolding lookup
mode_there = refl

text_fits : (s : String) → pin_type_matches_value zero_number PinType.string (string s) ≡ true
unfolding pin_type_matches_value
text_fits s = refl

off_is_off : value_eq zero_number (string "off") (string "off") ≡ true
unfolding value_eq
off_is_off = refl

on_is_not_off : value_eq zero_number (string "on") (string "off") ≡ false
unfolding value_eq
on_is_not_off = refl

one_swap_wins_example :
    let first = compare_and_swap zero_number "mode" (string "off") (string "on") none 2 declared in
    (first.0 ≡ inr true)
    × (compare_and_swap zero_number "mode" (string "off") (string "idle") none 3 first.1
        ≡ (inr false, first.1))
one_swap_wins_example =
    one_swap_wins zero_number "mode" (string "off") (string "on") (string "idle") none none 2 3
      declared (new_variable zero_number mode 1) mode_there (text_fits "on") (text_fits "idle")
      off_is_off on_is_not_off

reset_restores_example :
    ((reset zero_number "mode" (some "node") 5 declared).0 ≡ inr tt)
    × (lookup "mode" (reset zero_number "mode" (some "node") 5 declared).1.inner
        ≡ some (record (new_variable zero_number mode 1) {
          value = string "off";
          updated_at = 5;
          updated_by = some "node";
        }))
unfolding apply_all
reset_restores_example =
    reset_restores zero_number "mode" (some "node") 5 declared (new_variable zero_number mode 1)
      (variables-AllTyped zero_number (("mode", mode) ∷ []) 1 declared [] mode-declared) mode_there
