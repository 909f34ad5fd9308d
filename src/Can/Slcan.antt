-- ===== src/Can/Slcan.antt =====
-- The protocol SLCAN, crates/nodes-io/src/can/backends/slcan.rs: frames as lines of ASCII text.
pub mod Lines
pub mod RoundTrip
pub mod Refused
pub mod Received
use nazh.Base.{
  ℕ, ◌+◌, ◌-◌, ◌*◌, min, Bool, true, false, ◌||◌, Option, none, some, List, [], ◌∷◌, ◌++◌, ◌⊎◌, inl,
  inr, ltb, leb, ◌==◌, if◌then◌else◌, length, map, u32_max,
}
use nazh.Base.Options.{◌>>=◌}
use nazh.Connections.Types.{DateTime}
use nazh.Can.Hex.{HexError, encode, decode}
use nazh.Can.Hex.Accepts.{to_ascii_uppercase}
use nazh.Can.Numerals.{from_str_radix, upper_hex, trim, take, slice}
use nazh.Can.Frame.{CanFrame, CanError, encode_failed, CanFilter, matches}

-- a call that returns a result, or panics on an index out of range
pub data Outcome : Type 0 where
  line : List ℕ → Outcome
  failed : CanError → Outcome
  panics : Outcome

-- the text of a frame whose number is in range: the head and `width` digits, the length code, the data
unfoldable pub frame_text : ℕ → ℕ → CanFrame → ℕ → List ℕ → List ℕ
frame_text head width frame dlc data_hex =
    head ∷ upper_hex width frame.id ++ ((48 + dlc) ∷ data_hex ++ (13 ∷ []))

unfoldable pub encode_slcan_frame : CanFrame → Outcome
unfolding frame_text
encode_slcan_frame frame =
    let dlc = min frame.dlc 8 in
    let data_hex = map to_ascii_uppercase (encode (take dlc frame.payload)) in
    if ltb (length frame.payload) dlc
    then panics
    else if frame.is_extended
    then (if ltb 0x1FFFFFFF frame.id
        then failed (encode_failed frame.id)
        else line (frame_text 84 8 frame dlc data_hex))
    else if ltb 0x7FF frame.id
    then failed (encode_failed frame.id)
    else line (frame_text 116 3 frame dlc data_hex)

abbrev received : DateTime → ℕ → List ℕ → ℕ → Bool → Bool → CanFrame
received now id bytes dlc extended remote = record {
  id = id;
  payload = bytes;
  dlc = dlc;
  is_extended = extended;
  is_fd = false;
  is_remote = remote;
  timestamp = some now;
}

-- `.ok()` of a decoded text
abbrev ok : HexError ⊎ List ℕ → Option (List ℕ)
ok (inl _) = none
ok (inr bytes) = some bytes

abbrev unless : Bool → Option (Unit {0})
unless true = none
unless false = some tt

-- the arm of a line that starts with `t`
unfoldable pub decode_standard : DateTime → List ℕ → Option CanFrame
decode_standard now text = do
  _ ← unless (ltb (length text) 5)
  id ← from_str_radix 16 u32_max (slice 1 3 text)
  dlc ← from_str_radix 10 255 (slice 4 1 text)
  _ ← unless (ltb (length text) (5 + dlc * 2))
  bytes ← ok (decode (slice 5 (dlc * 2) text))
  some (received now id bytes dlc false false)

-- the arm of `T`
unfoldable pub decode_extended : DateTime → List ℕ → Option CanFrame
decode_extended now text = do
  _ ← unless (ltb (length text) 11)
  id ← from_str_radix 16 u32_max (slice 1 8 text)
  dlc ← from_str_radix 10 255 (slice 9 1 text)
  _ ← unless (ltb (length text) (10 + dlc * 2))
  bytes ← ok (decode (slice 10 (dlc * 2) text))
  some (received now id bytes dlc true false)

-- the arm of `r`
unfoldable pub decode_standard_remote : DateTime → List ℕ → Option CanFrame
decode_standard_remote now text = do
  _ ← unless (ltb (length text) 5)
  id ← from_str_radix 16 u32_max (slice 1 3 text)
  dlc ← from_str_radix 10 255 (slice 4 1 text)
  some (received now id [] dlc false true)

-- the arm of `R`
unfoldable pub decode_extended_remote : DateTime → List ℕ → Option CanFrame
decode_extended_remote now text = do
  _ ← unless (ltb (length text) 10)
  id ← from_str_radix 16 u32_max (slice 1 8 text)
  dlc ← from_str_radix 10 255 (slice 9 1 text)
  some (received now id [] dlc true true)

-- the `match` on the first byte of the trimmed line
unfoldable pub decode_trimmed : DateTime → List ℕ → Option CanFrame
unfolding decode_standard decode_extended decode_standard_remote decode_extended_remote
decode_trimmed now [] = none
decode_trimmed now (head ∷ rest) =
    if head == 116
    then decode_standard now (head ∷ rest)
    else if head == 84
    then decode_extended now (head ∷ rest)
    else if head == 114
    then decode_standard_remote now (head ∷ rest)
    else if head == 82
    then decode_extended_remote now (head ∷ rest)
    else none

unfoldable pub decode_slcan_frame : DateTime → List ℕ → Option CanFrame
unfolding decode_trimmed
decode_slcan_frame now text = decode_trimmed now (trim text)
