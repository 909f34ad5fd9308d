-- ===== src/Can/Slcan/RoundTrip.antt =====
-- A frame that is encoded is decoded to the same frame, with the time of its arrival.
use nazh.Base.{
  ℕ, ◌+◌, ◌≤◌, ◌≡◌, refl, ap, sym, ◌∙◌, min, Bool, true, false, some, List, [], ◌∷◌, ◌++◌, ◌⊎◌, inl,
  inr, Bool-cases, ltb, length, map, All, arith,
}
use nazh.Connections.Types.{DateTime}
use mathlib.Core.List.{append_assoc}
use mathlib.Core.Path.{subst}
use nazh.Can.Hex.{IsByte, encode}
use nazh.Can.Hex.Accepts.{to_ascii_uppercase}
use nazh.Can.Numerals.{upper_hex, trim, trim_end, take, is_space}
use nazh.Can.Numerals.Laws.{IsPlain, take-length}
use nazh.Can.Frame.{CanFrame}
use nazh.Can.Slcan.{line, frame_text, encode_slcan_frame, decode_trimmed, decode_slcan_frame}
use nazh.Can.Slcan.Lines.{map-encode, read_standard, read_extended, trimmed}

-- the largest identifier of an extended frame, and of a standard one
abbrev pub largest_id : Bool → ℕ
largest_id true = 0x1FFFFFFF
largest_id false = 0x7FF

-- a data frame that CAN 2.0 allows, with an identifier of its format
abbrev pub IsDataFrame : ℕ → CanFrame → Type 0
IsDataFrame largest frame =
    (frame.id ≤ largest)
    × (frame.dlc ≡ length frame.payload)
    × (frame.dlc ≤ 8)
    × All IsByte frame.payload
    × (frame.is_fd ≡ false)
    × (frame.is_remote ≡ false)

-- The line of a frame of at most 8 bytes, as the code sends it.
encode_valid :
    (largest : ℕ) (frame : CanFrame)
    → IsDataFrame largest frame
    → (ltb (length frame.payload) (min frame.dlc 8) ≡ false)
      × (min frame.dlc 8 ≡ frame.dlc)
      × (map to_ascii_uppercase (encode (take frame.dlc frame.payload)) ≡ encode frame.payload)
encode_valid largest frame (small, e, short, h, _, _) = (
  ground arith,
  omega arith,
  rw (e) (rw (take-length frame.payload) (map-encode frame.payload h)),
)

-- The line of a standard data frame.
pub encode_standard :
    (frame : CanFrame)
    → IsDataFrame 0x7FF frame
    → frame.is_extended ≡ false
    → encode_slcan_frame frame ≡ line (frame_text 116 3 frame frame.dlc (encode frame.payload))
unfolding encode_slcan_frame
encode_standard frame valid std =
    let (fits, clamp, text) = encode_valid 0x7FF frame valid in
    let range : ltb 0x7FF frame.id ≡ false = ground (arith, valid.0) in
    rw (fits, encode_slcan_frame) (rw (std) (rw (range) (rw (clamp) (rw (text) refl))))

pub encode_extended :
    (frame : CanFrame)
    → IsDataFrame 0x1FFFFFFF frame
    → frame.is_extended ≡ true
    → encode_slcan_frame frame ≡ line (frame_text 84 8 frame frame.dlc (encode frame.payload))
unfolding encode_slcan_frame
encode_extended frame valid ext =
    let (fits, clamp, text) = encode_valid 0x1FFFFFFF frame valid in
    let range : ltb 0x1FFFFFFF frame.id ≡ false = ground (arith, valid.0) in
    rw (fits, encode_slcan_frame) (rw (ext) (rw (range) (rw (clamp) (rw (text) refl))))

record_eq :
    (now : DateTime) (frame : CanFrame) (extended fd remote : Bool)
    → frame.is_extended ≡ extended
    → frame.is_fd ≡ fd
    → frame.is_remote ≡ remote
    → (record frame {
      is_extended = extended;
      is_fd = fd;
      is_remote = remote;
      timestamp = some now;
    })
      ≡ (record frame { timestamp = some now })
record_eq now frame extended fd remote e f r = rw (sym e) (rw (sym f) (rw (sym r) refl))

-- the decoder sees the line of a frame with its end trimmed
pub decode-frame_text :
    (now : DateTime) (head width : ℕ) (frame : CanFrame) (bytes rest : List ℕ)
    → IsPlain head
    → frame.dlc ≤ 8
    → All IsByte bytes
    → decode_slcan_frame now (frame_text head width frame frame.dlc (encode bytes) ++ rest)
      ≡ decode_trimmed now (
          head ∷ upper_hex width frame.id
          ++ ((48 + frame.dlc) ∷ encode bytes ++ trim_end (13 ∷ rest)))
unfolding decode_slcan_frame frame_text
decode-frame_text now head width frame bytes rest plain short h =
    let inner = append_assoc (encode bytes) (13 ∷ []) rest in
    let outer =
      append_assoc (upper_hex width frame.id) ((48 + frame.dlc) ∷ encode bytes ++ (13 ∷ [])) rest in
    ap (λ text. decode_trimmed now (trim (head ∷ text)))
      (outer ∙ ap (λ text. upper_hex width frame.id ++ ((48 + frame.dlc) ∷ text)) inner)
    ∙ ap (decode_trimmed now)
        (trimmed head width frame.id frame.dlc bytes (13 ∷ rest) plain short h)

standard_line :
    (now : DateTime) (frame : CanFrame) (rest : List ℕ)
    → IsDataFrame 0x7FF frame
    → frame.is_extended ≡ false
    → (text : List ℕ) × (encode_slcan_frame frame ≡ line text)
      × (decode_slcan_frame now (text ++ rest) ≡ some (record frame { timestamp = some now }))
unfolding decode_trimmed is_space
standard_line now frame rest valid std =
    let (small, e, short, h, fd, remote) = valid in
    (
      frame_text 116 3 frame frame.dlc (encode frame.payload),
      encode_standard frame valid std,
      decode-frame_text now 116 3 frame frame.payload rest (refl, refl) short h
          ∙ read_standard now frame.id frame.dlc frame.payload (trim_end (13 ∷ rest)) small e short
              h
          ∙ ap some (record_eq now frame false false false std fd remote),
    )

extended_line :
    (now : DateTime) (frame : CanFrame) (rest : List ℕ)
    → IsDataFrame 0x1FFFFFFF frame
    → frame.is_extended ≡ true
    → 1 ≤ frame.dlc
    → (text : List ℕ) × (encode_slcan_frame frame ≡ line text)
      × (decode_slcan_frame now (text ++ rest) ≡ some (record frame { timestamp = some now }))
unfolding decode_trimmed is_space
extended_line now frame rest valid ext pos =
    let (small, e, short, h, fd, remote) = valid in
    (
      frame_text 84 8 frame frame.dlc (encode frame.payload),
      encode_extended frame valid ext,
      decode-frame_text now 84 8 frame frame.payload rest (refl, refl) short h
          ∙ read_extended now frame.id frame.dlc frame.payload (trim_end (13 ∷ rest)) small e pos
              short h
          ∙ ap some (record_eq now frame true false false ext fd remote),
    )

-- A data frame with an identifier of its format (11 or 29 bits), with at most 8 bytes and as many as
-- its length code says, is encoded as a line, and whatever stands behind that line, it is decoded to
-- the frame, with the time of its arrival. An extended frame has at least one byte here.
pub decode-encode_slcan :
    (now : DateTime) (frame : CanFrame) (rest : List ℕ)
    → IsDataFrame (largest_id frame.is_extended) frame
    → (frame.is_extended ≡ false) ⊎ (1 ≤ frame.dlc)
    → (text : List ℕ) × (encode_slcan_frame frame ≡ line text)
      × (decode_slcan_frame now (text ++ rest) ≡ some (record frame { timestamp = some now }))
decode-encode_slcan now frame rest valid kind = elim (Bool-cases frame.is_extended) [
  | inr std ↦
      standard_line now frame rest (subst (λ b. IsDataFrame (largest_id b) frame) std valid) std
  | inl ext ↦
      extended_line now frame rest (subst (λ b. IsDataFrame (largest_id b) frame) ext valid) ext
        (elim kind [ inl std ↦ absurd (ground (arith, ext, std)) | inr pos ↦ pos ])
]
