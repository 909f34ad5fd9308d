-- ===== src/Can/Slcan/Refused.antt =====
-- The frames that the encoder sends and the decoder loses.
use nazh.Base.{ℕ, ◌≡◌, refl, ap, sym, ◌∙◌, true, none, List, [], arith}
use mathlib.Core.List.{append-nil}
use nazh.Connections.Types.{DateTime}
use nazh.Can.Hex.{encode}
use nazh.Can.Numerals.{upper_hex, is_space, trim_end}
use nazh.Can.Frame.{CanFrame}
use nazh.Can.Slcan.{
  line, frame_text, encode_slcan_frame, decode_trimmed, decode_extended, decode_slcan_frame,
}
use nazh.Can.Slcan.RoundTrip.{IsDataFrame, encode_extended, decode-frame_text}

-- An extended data frame without data is encoded as a line, and that line is decoded to no frame.
pub empty_extended_frame_lost :
    (now : DateTime) (frame : CanFrame)
    → IsDataFrame 0x1FFFFFFF frame
    → frame.is_extended ≡ true
    → frame.dlc ≡ 0
    → (text : List ℕ) × (encode_slcan_frame frame ≡ line text)
      × (decode_slcan_frame now text ≡ none)
unfolding decode_trimmed decode_extended upper_hex is_space encode trim_end
empty_extended_frame_lost now frame valid ext empty =
    let (small, e, short, h, _, _) = valid in
    let none_left : frame.payload ≡ [] = ground (arith, e, empty) in
    (
      frame_text 84 8 frame frame.dlc (encode frame.payload),
      encode_extended frame valid ext,
      ap (decode_slcan_frame now)
            (sym (append-nil (frame_text 84 8 frame frame.dlc (encode frame.payload))))
          ∙ decode-frame_text now 84 8 frame frame.payload [] (refl, refl) short h
          ∙ rw (none_left) refl,
    )
