-- ===== src/Can/Frame.antt =====
-- Frames and receive filters, crates/nodes-io/src/can/frame.rs, filter.rs and mod.rs.
use nazh.Base.{
  ℕ, ◌+◌, min, Bool, true, false, not, ◌&&◌, Option, none, some, List, ◌⊎◌, inl, inr, ltb, leb,
  ◌==◌, if◌then◌else◌, length,
}
use Prim.Native.Nat.{bit_and}
use nazh.Connections.Types.{DateTime}
use nazh.Can.Numerals.{take, slice}

pub record CanFrame : Type 0 where
  pub id : ℕ
  pub payload : List ℕ  -- the field `data`
  pub dlc : ℕ
  pub is_extended : Bool
  pub is_fd : Bool
  pub is_remote : Bool
  pub timestamp : Option DateTime

-- `CanFrame::new_standard`; `now` is the clock's time
abbrev pub new_standard : DateTime → ℕ → List ℕ → CanFrame
new_standard now id bytes = record {
  id = id;
  payload = take (min (length bytes) 8) bytes;
  dlc = min (length bytes) 8;
  is_extended = false;
  is_fd = false;
  is_remote = false;
  timestamp = some now;
}

-- `CanFrame::new_extended`
abbrev pub new_extended : DateTime → ℕ → List ℕ → CanFrame
new_extended now id bytes = record {
  id = id;
  payload = take (min (length bytes) 8) bytes;
  dlc = min (length bytes) 8;
  is_extended = true;
  is_fd = false;
  is_remote = false;
  timestamp = some now;
}

unfoldable pub extract_bytes : CanFrame → ℕ → ℕ → Option (List ℕ)
extract_bytes frame offset count =
    if ltb (length frame.payload) (offset + count)
    then none
    else some (slice offset count frame.payload)

-- the kind of `CanError` that these calls give, with the identifier that its message names
pub data CanError : Type 0 where
  encode_failed : ℕ → CanError

unfoldable pub validate_can_id : ℕ → Bool → CanError ⊎ Unit {0}
validate_can_id can_id true = if leb can_id 0x1FFFFFFF then inr tt else inl (encode_failed can_id)
validate_can_id can_id false = if leb can_id 0x7FF then inr tt else inl (encode_failed can_id)

pub record CanFilter : Type 0 where
  pub can_id : ℕ
  pub can_mask : ℕ
  pub extended : Bool

-- `CanFilter::standard`
abbrev pub standard_filter : ℕ → ℕ → CanFilter
standard_filter can_id can_mask = record {
  can_id = bit_and can_id 0x7FF;
  can_mask = bit_and can_mask 0x7FF;
  extended = false;
}

-- `CanFilter::extended`
abbrev pub extended_filter : ℕ → ℕ → CanFilter
extended_filter can_id can_mask = record {
  can_id = bit_and can_id 0x1FFFFFFF;
  can_mask = bit_and can_mask 0x1FFFFFFF;
  extended = true;
}

unfoldable pub matches : CanFilter → ℕ → Bool → Bool
matches filter frame_id frame_is_extended =
    if filter.extended && not frame_is_extended
    then false
    else bit_and frame_id filter.can_mask == bit_and filter.can_id filter.can_mask
