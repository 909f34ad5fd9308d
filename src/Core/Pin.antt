-- ===== src/Core/Pin.antt =====
-- The types of pins, crates/core/src/pin.rs, and `pin_type_matches_value`, variables/value.rs.
use nazh.Base.{ℕ, Option, Bool, true, false, ◌&&◌, ◌||◌, none, some, String, str_eq, leb}
use nazh.Json.{JsonNumber, Value, Items, nil, cons, as_u64}

pub data PinType : Type 0 where
  any bool integer float string json binary : PinType
  array : PinType → PinType
  custom : String → PinType

pub data PinKind : Type 0 where
  exec data_kind reactive : PinKind

-- `PinKind::is_compatible_with`
unfoldable pub kinds_compatible : PinKind → PinKind → Bool
kinds_compatible exec exec = true
kinds_compatible data_kind data_kind = true
kinds_compatible reactive _ = true
kinds_compatible exec reactive = false
kinds_compatible exec data_kind = false
kinds_compatible data_kind reactive = false
kinds_compatible data_kind exec = false

-- `PinType::is_compatible_with`
unfoldable pub types_compatible : PinType → PinType → Bool
types_compatible any _ = true
types_compatible _ any = true
types_compatible bool bool = true
types_compatible integer integer = true
types_compatible float float = true
types_compatible string string = true
types_compatible json json = true
types_compatible binary binary = true
types_compatible (array a) (array b) = types_compatible a b
types_compatible (custom a) (custom b) = str_eq a b
types_compatible _ _ = false

module _ (J : JsonNumber) where
  open J use {Number, is_i64, is_u64}

  -- every element is a byte
  unfoldable pub all_bytes : Items Number → Bool
  all_bytes nil = true
  all_bytes (cons v vs) = elim (as_u64 J v) [ none ↦ false | some n ↦ leb n 255 ] && all_bytes vs

  -- every element passes the test of the element type
  unfoldable pub all_items : (Value Number → Bool) → Items Number → Bool
  all_items test nil = true
  all_items test (cons v vs) = test v && all_items test vs

  unfoldable pub pin_type_matches_value : PinType → Value Number → Bool
  unfolding all_bytes all_items
  pin_type_matches_value any _ = true
  pin_type_matches_value bool (Value.bool _) = true
  pin_type_matches_value float (Value.number _) = true
  pin_type_matches_value string (Value.string _) = true
  pin_type_matches_value binary (Value.string _) = true
  pin_type_matches_value json (Value.object _) = true
  pin_type_matches_value json (Value.array _) = true
  pin_type_matches_value integer (Value.number n) = is_i64 n || is_u64 n
  pin_type_matches_value binary (Value.array items) = all_bytes items
  pin_type_matches_value (array inner) (Value.array items) =
      all_items (λ v. pin_type_matches_value inner v) items
  pin_type_matches_value _ _ = false

pub data PinDirection : Type 0 where
  input output : PinDirection

pub data EmptyPolicy (N : Type 0) : Type 0 where
  block_until_ready skip : EmptyPolicy N
  default_value : Value N → EmptyPolicy N

pub record PinDefinition (N : Type 0) : Type 0 where
  pub id : String
  pub label : String
  pub pin_type : PinType
  pub direction : PinDirection
  pub required : Bool
  pub kind : PinKind
  pub description : Option String
  pub empty_policy : EmptyPolicy N
  pub block_timeout_ms : Option ℕ  -- u64
  pub ttl_ms : Option ℕ  -- u64
