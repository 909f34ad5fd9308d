-- ===== src/Can/Write.antt =====
-- The node `canWrite`, crates/nodes-io/src/can/can_write.rs: the frame that a payload asks for.
use nazh.Base.{
  ℕ, suc, ◌+◌, Bool, true, false, ◌&&◌, ◌||◌, Option, none, some, String, List, [], ◌∷◌, ◌⊎◌, inl,
  inr, leb, ltb, ◌==◌, if◌then◌else◌, u32_max,
}
use Prim.Native.Char.{code}
use nazh.Base.Results.{◌>>=◌}
use nazh.Json.{
  JsonNumber, Value, null, bool, number, string, array, object, Items, nil, cons, Fields, end,
  field, get_field, as_u64,
}
use nazh.Connections.Types.{DateTime}
pub mod Sendable
use nazh.Can.Hex.{HexError, decode}
use nazh.Can.Frame.{CanFrame, CanError, new_standard, new_extended, validate_can_id}

-- what the messages of `EngineError::node_config` tell apart
pub data WriteError : Type 0 where
  id_above_u32 : ℕ → WriteError
  id_refused : CanError → WriteError
  not_a_byte : ℕ → WriteError
  byte_above_255 : ℕ → ℕ → WriteError
  bad_character : ℕ → WriteError
  bad_hex : HexError → WriteError

pub record CanWriteNodeConfig : Type 0 where
  pub connection_id : Option String
  pub simulation : Bool
  pub can_id : Option ℕ
  pub is_extended : Bool

-- the scalar values of a text
unfoldable pub codes : String → List ℕ
codes String.[] = []
codes (String.◌∷◌ c s) = code c ∷ codes s

-- `replace("0x", "")`, for the letter x or X
unfoldable pub without_prefix : ℕ → List ℕ → List ℕ
without_prefix letter [] = []
without_prefix letter (a ∷ []) = a ∷ []
without_prefix letter (a ∷ b ∷ rest) =
    let skipped = without_prefix letter rest in
    let kept = without_prefix letter (b ∷ rest) in
    if a == 48 && b == letter then skipped else a ∷ kept

abbrev is_hexdigit : ℕ → Bool
is_hexdigit c = (leb 48 c && leb c 57) || (leb 97 c && leb c 102) || (leb 65 c && leb c 70)

-- ASCII blanks and `_`, `-`, `:`, `,`
abbrev is_separator : ℕ → Bool
is_separator c =
    c == 32 || c == 9 || c == 10 || c == 12 || c == 13 || c == 95 || c == 45 || c == 58 || c == 44

-- the loop of `parse_hex_string`
unfoldable pub clean : List ℕ → WriteError ⊎ List ℕ
clean [] = inr []
clean (c ∷ cs) =
    let rest = clean cs in
    if is_hexdigit c
    then (rest >>= λ cleaned. inr (c ∷ cleaned))
    else if is_separator c
    then rest
    else inl (bad_character c)

abbrev or_hex_error : HexError ⊎ List ℕ → WriteError ⊎ List ℕ
or_hex_error (inl e) = inl (bad_hex e)
or_hex_error (inr bytes) = inr bytes

unfoldable pub parse_hex_string : List ℕ → WriteError ⊎ List ℕ
unfolding clean without_prefix
parse_hex_string s = do
  cleaned ← clean (without_prefix 88 (without_prefix 120 s))
  or_hex_error (decode cleaned)

module _ (J : JsonNumber) where
  open J use {Number}

  -- an item of `data`, where it is a number that `u8::try_from` takes
  abbrev pub byte_of : ℕ → Option ℕ → WriteError ⊎ ℕ
  byte_of index none = inl (not_a_byte index)
  byte_of index (some n) = if ltb 255 n then inl (byte_above_255 index n) else inr n

  -- `parse_byte_array`, from the item with the number `index` on
  unfoldable pub parse_byte_array : ℕ → Items Number → WriteError ⊎ List ℕ
  parse_byte_array index nil = inr []
  parse_byte_array index (cons value values) = do
    n ← byte_of index (as_u64 J value)
    bytes ← parse_byte_array (suc index) values
    inr (n ∷ bytes)

  -- the field `can_id` of the payload, if it is there and a number
  unfoldable pub payload_id : Fields Number → WriteError ⊎ Option ℕ
  unfolding get_field
  payload_id fields = elim (get_field "can_id" fields) [
    | none ↦ inr none
    | some value ↦ elim (as_u64 J value) [
      | none ↦ inr none
      | some n ↦ if ltb u32_max n then inl (id_above_u32 n) else inr (some n)
    ]
  ]

  -- `.or(config.can_id).unwrap_or(0x001)`
  abbrev pub id_or_default : Option ℕ → Option ℕ → ℕ
  id_or_default (some id) _ = id
  id_or_default none (some id) = id
  id_or_default none none = 0x001

  abbrev bool_or : Bool → Option (Value Number) → Bool
  bool_or default (some (bool b)) = b
  bool_or default _ = default

  -- `data`: an array of bytes, hexadecimal text, or nothing
  unfoldable pub payload_bytes : Option (Value Number) → WriteError ⊎ List ℕ
  unfolding parse_byte_array parse_hex_string codes
  payload_bytes (some (array items)) = parse_byte_array 0 items
  payload_bytes (some (string s)) = parse_hex_string (codes s)
  payload_bytes _ = inr []

  abbrev or_refused : CanError ⊎ Unit {0} → WriteError ⊎ Unit {0}
  or_refused (inl e) = inl (id_refused e)
  or_refused (inr u) = inr u

  abbrev frame_of : DateTime → Bool → ℕ → List ℕ → CanFrame
  frame_of now true id bytes = new_extended now id bytes
  frame_of now false id bytes = new_standard now id bytes

  -- `into_payload_map` of crates/core/src/node.rs
  abbrev pub into_payload_map : Value Number → Fields Number
  into_payload_map (object fields) = fields
  into_payload_map other = field "value" other end

  unfoldable pub frame_from_payload :
      CanWriteNodeConfig → DateTime → Value Number → WriteError ⊎ (Fields Number × CanFrame)
  unfolding payload_id payload_bytes
  frame_from_payload config now payload =
      let fields = into_payload_map payload in
      let is_extended = bool_or config.is_extended (get_field "is_extended" fields) in
      do
        found ← payload_id fields
        _ ← or_refused (validate_can_id (id_or_default found config.can_id) is_extended)
        bytes ← payload_bytes (get_field "data" fields)
        inr (fields, frame_of now is_extended (id_or_default found config.can_id) bytes)
