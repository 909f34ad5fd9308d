-- ===== src/Can/Tests.antt =====
-- Runs of the CAN codec, and concrete inputs of its theorems.
use nazh.Base.{◌+◌, ℕ, ◌≡◌, refl, true, false, none, some, List, [], ◌∷◌, ◌++◌, inl, inr, arith}
use nazh.Json.{string, object, Fields, end, field}
use nazh.Core.Variables.Tests.{zero_number}
use nazh.Can.Hex.{hex_char, encode, decode}
use nazh.Can.Hex.Accepts.{to_ascii_uppercase}
use nazh.Can.Numerals.{upper_hex, trim, from_str_radix}
use nazh.Can.Frame.{CanFrame, new_standard, new_extended, standard_filter, validate_can_id, matches}
use nazh.Can.Slcan.{line, panics, encode_slcan_frame, decode_slcan_frame}
use nazh.Can.Slcan.RoundTrip.{IsDataFrame, largest_id, decode-encode_slcan}
use nazh.Can.Slcan.Refused.{empty_extended_frame_lost}
use nazh.Can.Slcan.Received.{IsReceived, decode_slcan_frame-IsReceived, remote_frame_panics}
use nazh.Can.Write.{CanWriteNodeConfig, frame_from_payload}
use nazh.Can.Write.Sendable.{accepted_frame_is_sent}
use nazh.Can.Bus.{arrived, active, Receiver, recv}
use nazh.Can.Bus.Filtered.{IsReceipt, recv-IsReceipt}

-- a frame of identifier 0x123 with the bytes 1, 2 and 3
abbrev three : CanFrame
three = new_standard 5 0x123 (1 ∷ 2 ∷ 3 ∷ [])

three_valid : IsDataFrame (largest_id three.is_extended) three
three_valid =
    (omega arith, refl, omega arith, (omega arith, (omega arith, (omega arith, tt))), refl, refl)

-- t1233010203 and a carriage return
three_text :
    encode_slcan_frame three
    ≡ line (116 ∷ 49 ∷ 50 ∷ 51 ∷ 51 ∷ 48 ∷ 49 ∷ 48 ∷ 50 ∷ 48 ∷ 51 ∷ 13 ∷ [])
unfolding encode_slcan_frame upper_hex hex_char encode to_ascii_uppercase
three_text = refl

-- The second frame of two lines that no line feed separates is lost.
decode-encode_slcan_example :
    (text : List ℕ) × (encode_slcan_frame three ≡ line text)
    × (decode_slcan_frame 9 (text ++ (116 ∷ 48 ∷ 48 ∷ 49 ∷ 48 ∷ 13 ∷ []))
        ≡ some (record three { timestamp = some 9 }))
decode-encode_slcan_example =
    decode-encode_slcan 9 three (116 ∷ 48 ∷ 48 ∷ 49 ∷ 48 ∷ 13 ∷ []) three_valid (inl refl)

abbrev empty : CanFrame
empty = new_extended 5 0x18FF1234 []

empty_extended_frame_lost_example :
    (text : List ℕ) × (encode_slcan_frame empty ≡ line text) × (decode_slcan_frame 9 text ≡ none)
empty_extended_frame_lost_example =
    empty_extended_frame_lost 9 empty (omega arith, refl, omega arith, tt, refl, refl) refl refl

-- r1234
abbrev remote_line : List ℕ
remote_line = 114 ∷ 49 ∷ 50 ∷ 51 ∷ 52 ∷ []

abbrev remote : CanFrame
remote = record {
  id = 0x123;
  payload = [];
  dlc = 4;
  is_extended = false;
  is_fd = false;
  is_remote = true;
  timestamp = some 9;
}

remote_read : decode_slcan_frame 9 remote_line ≡ some remote
unfolding decode_slcan_frame trim from_str_radix
remote_read = refl

decode_slcan_frame-IsReceived_example : IsReceived remote
decode_slcan_frame-IsReceived_example =
    decode_slcan_frame-IsReceived 9 remote_line remote remote_read

remote_frame_panics_example : encode_slcan_frame remote ≡ panics
remote_frame_panics_example =
    remote_frame_panics 9 remote_line remote remote_read refl (omega arith)

abbrev config : CanWriteNodeConfig
config = record {
  connection_id = none;
  simulation = true;
  can_id = some 0x123;
  is_extended = false;
}

-- the payload { data: "0x01 02-03" }
abbrev hex_fields : Fields Unit
hex_fields = field "data" (string "0x01 02-03") end

hex_taken : frame_from_payload zero_number config 5 (object hex_fields) ≡ inr (hex_fields, three)
unfolding frame_from_payload validate_can_id decode
hex_taken = refl

accepted_frame_is_sent_example :
    IsDataFrame (largest_id three.is_extended) three
    × (text : List ℕ) × (encode_slcan_frame three ≡ line text)
accepted_frame_is_sent_example =
    accepted_frame_is_sent zero_number config 5 (object hex_fields) hex_fields three hex_taken

abbrev other : CanFrame
other = new_standard 4 0x200 []

abbrev bus : Receiver
bus = record {
  filters = standard_filter 0x100 0x700 ∷ [];
  state = active;
  queue = arrived other ∷ arrived three ∷ arrived other ∷ [];
}

abbrev bus_after : Receiver
bus_after = record bus { queue = arrived other ∷ [] }

-- the first round is at 10 and each takes 1
abbrev ticking : ℕ → ℕ
ticking n = 10 + n

received_three : recv 10 5 ticking bus ≡ (some three, bus_after)
unfolding recv matches
received_three = refl

-- with a timeout of 1, the deadline comes before the round that would take `three`
abbrev bus_late : Receiver
bus_late = record bus { queue = arrived three ∷ arrived other ∷ [] }

received_none : recv 10 1 ticking bus ≡ (none, bus_late)
unfolding recv matches
received_none = refl

recv-IsReceipt_example :
    let after = recv 10 1 ticking bus in
    IsReceipt bus.filters 11 ticking bus.state bus.queue (after.0, after.1.state, after.1.queue)
recv-IsReceipt_example = recv-IsReceipt 10 1 ticking bus
