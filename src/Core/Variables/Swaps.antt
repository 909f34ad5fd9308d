-- ===== src/Core/Variables/Swaps.antt =====
-- `compare_and_swap` and `reset` of a declared variable.
use nazh.Base.{◌≡◌, refl, true, false, Option, some, String, inr, lookup, lookup-insert, eq_refl}
use nazh.Json.{JsonNumber, Value, value_eq}
use nazh.Connections.Types.{DateTime}
use nazh.Core.Pin.{pin_type_matches_value}
use nazh.Core.Variables.{TypedVariable, WorkflowVariables, write, set, reset, compare_and_swap}
use nazh.Core.Variables.Typed.{AllTyped, IsTyped-at}

module _ (J : JsonNumber) where
  open J use {Number}

  pub lookup-write :
      (name : String) (v : TypedVariable Number) (value : Value Number) (by : Option String)
      (now : DateTime) (s : WorkflowVariables Number)
      → lookup name (write J name v value by now s).inner
        ≡ some (record v { value = value; updated_at = now; updated_by = by })
  unfolding write
  lookup-write name v value by now s =
      rw
        (lookup-insert name name (record v { value = value; updated_at = now; updated_by = by })
          s.inner)
        (rw (eq_refl name) refl)

  swap_done :
      (name : String) (expected new : Value Number) (by : Option String) (now : DateTime)
      (s : WorkflowVariables Number) (v : TypedVariable Number)
      → lookup name s.inner ≡ some v
      → pin_type_matches_value J v.variable_type new ≡ true
      → value_eq J v.value expected ≡ true
      → compare_and_swap J name expected new by now s ≡ (inr true, write J name v new by now s)
  unfolding compare_and_swap
  swap_done name expected new by now s v e fits same =
      rw (e, compare_and_swap) (rw (fits, same) refl)

  swap_lost :
      (name : String) (expected new : Value Number) (by : Option String) (now : DateTime)
      (s : WorkflowVariables Number) (v : TypedVariable Number)
      → lookup name s.inner ≡ some v
      → pin_type_matches_value J v.variable_type new ≡ true
      → value_eq J v.value expected ≡ false
      → compare_and_swap J name expected new by now s ≡ (inr false, s)
  unfolding compare_and_swap
  swap_lost name expected new by now s v e fits other =
      rw (e, compare_and_swap) (rw (fits, other) refl)

  -- Of two swaps that expect the same value, which the variable has, the first wins and the second
  -- loses and changes nothing, if the value that the first writes is not the expected one.
  pub one_swap_wins :
      (name : String) (expected one two : Value Number) (by other : Option String)
      (now later : DateTime) (s : WorkflowVariables Number) (v : TypedVariable Number)
      → lookup name s.inner ≡ some v
      → pin_type_matches_value J v.variable_type one ≡ true
      → pin_type_matches_value J v.variable_type two ≡ true
      → value_eq J v.value expected ≡ true
      → value_eq J one expected ≡ false
      → let first = compare_and_swap J name expected one by now s in
        (first.0 ≡ inr true)
        × (compare_and_swap J name expected two other later first.1 ≡ (inr false, first.1))
  one_swap_wins name expected one two by other now later s v e fits1 fits2 same differ =
      rw (swap_done name expected one by now s v e fits1 same) (
        refl,
        swap_lost name expected two other later (write J name v one by now s) _
            (lookup-write name v one by now s) fits2 differ,
      )

  -- In a store whose values have their declared types, the reset of a declared variable succeeds, and
  -- the variable has its initial value, the same type, and the time and the writer of the reset.
  pub reset_restores :
      (name : String) (by : Option String) (now : DateTime) (s : WorkflowVariables Number)
      (v : TypedVariable Number)
      → AllTyped J s.inner
      → lookup name s.inner ≡ some v
      → ((reset J name by now s).0 ≡ inr tt)
        × (lookup name (reset J name by now s).1.inner
            ≡ some (record v { value = v.initial; updated_at = now; updated_by = by }))
  unfolding reset set
  reset_restores name by now s v all e =
      let typed = IsTyped-at J name v s.inner all e in
      let done : reset J name by now s ≡ (inr tt, write J name v v.initial by now s) =
        rw (e, reset) (rw (e, set) (rw (typed.initially) refl)) in
      rw done (refl, lookup-write name v v.initial by now s)
