-- ===== src/Can/Write/Sendable.antt =====
-- A payload that the node takes gives a frame that can be sent.
use nazh.Base.{
  ℕ, suc, ◌≤◌, ◌≡◌, refl, ap, min, Bool, true, false, Option, none, some, List, [], ◌∷◌, ◌⊎◌, inl,
  inr, length, All, arith, Bool-cases,
}
use mathlib.Core.Path.{subst}
use nazh.Base.Results.{>>=_elim}
use nazh.Json.{JsonNumber, Value, string, array, Items, nil, cons, Fields, get_field, as_u64}
use nazh.Connections.Types.{DateTime}
use nazh.Can.Hex.{IsByte, HexError}
use nazh.Can.Hex.Accepts.{encode-decode}
use nazh.Can.Numerals.Laws.{length-take, All-take}
use nazh.Can.Frame.{CanFrame, validate_can_id}
use nazh.Can.Slcan.{line, encode_slcan_frame}
use nazh.Can.Slcan.RoundTrip.{IsDataFrame, largest_id, encode_standard, encode_extended}
use nazh.Can.Write.{
  CanWriteNodeConfig, codes, parse_hex_string, clean, without_prefix, or_hex_error, byte_of,
  parse_byte_array, payload_bytes, payload_id, id_or_default, bool_or, or_refused, frame_of,
  into_payload_map, frame_from_payload,
}

or_hex_error_inv :
    (o : HexError ⊎ List ℕ) (bytes : List ℕ) → or_hex_error o ≡ inr bytes → o ≡ inr bytes
or_hex_error_inv (inl e) bytes h = absurd (ground arith)
or_hex_error_inv (inr all) bytes h = let same : all ≡ bytes = cc in ap inr same

parse_hex_string-bytes : (s bytes : List ℕ) → parse_hex_string s ≡ inr bytes → All IsByte bytes
unfolding parse_hex_string
parse_hex_string-bytes s bytes h =
    >>=_elim (clean (without_prefix 88 (without_prefix 120 s))) _ bytes h
      (λ cleaned _ made. (encode-decode cleaned bytes (or_hex_error_inv _ bytes made)).1)

byte_of_inv :
    (J : JsonNumber) (index : ℕ) (o : Option ℕ) (n : ℕ) → byte_of J index o ≡ inr n → IsByte n
byte_of_inv J index none n h = absurd (ground arith)
byte_of_inv J index (some m) n h = ground arith

sendable :
    (frame : CanFrame)
    → IsDataFrame (largest_id frame.is_extended) frame
    → (text : List ℕ) × (encode_slcan_frame frame ≡ line text)
sendable frame valid = elim (Bool-cases frame.is_extended) [
  | inl ext ↦
      let v : IsDataFrame 0x1FFFFFFF frame =
        subst (λ b. IsDataFrame (largest_id b) frame) ext valid in
      (_, encode_extended frame v ext)
  | inr std ↦
      let v : IsDataFrame 0x7FF frame = subst (λ b. IsDataFrame (largest_id b) frame) std valid in
      (_, encode_standard frame v std)
]

module _ (J : JsonNumber) where
  open J use {Number}

  parse_byte_array-bytes :
      (index : ℕ) (items : Items Number) (bytes : List ℕ)
      → parse_byte_array J index items ≡ inr bytes
      → All IsByte bytes
  unfolding parse_byte_array
  parse_byte_array-bytes index nil bytes h =
      let empty : [] ≡ bytes = cc in subst (All IsByte) empty tt
  parse_byte_array-bytes index (cons value values) bytes h =
      >>=_elim (byte_of J index (as_u64 J value)) _ bytes h (λ n one h1.
        >>=_elim (parse_byte_array J (suc index) values) _ bytes h1 (λ more others made.
          let whole : n ∷ more ≡ bytes = cc in
          subst (All IsByte) whole (
            byte_of_inv J index (as_u64 J value) n one,
            parse_byte_array-bytes (suc index) values more others,
          )))

  payload_bytes-bytes :
      (value : Option (Value Number)) (bytes : List ℕ)
      → payload_bytes J value ≡ inr bytes
      → All IsByte bytes
  unfolding payload_bytes
  payload_bytes-bytes (some (array items)) bytes h = parse_byte_array-bytes 0 items bytes h
  payload_bytes-bytes (some (string s)) bytes h = parse_hex_string-bytes (codes s) bytes h
  payload_bytes-bytes _ bytes h = let empty : [] ≡ bytes = cc in subst (All IsByte) empty tt

  allowed :
      (id : ℕ) (extended : Bool) (u : Unit {0})
      → or_refused J (validate_can_id id extended) ≡ inr u
      → id ≤ largest_id extended
  unfolding validate_can_id
  allowed id true u h = ground arith
  allowed id false u h = ground arith

  frame_of-valid :
      (now : DateTime) (extended : Bool) (id : ℕ) (bytes : List ℕ)
      → id ≤ largest_id extended
      → All IsByte bytes
      → let frame = frame_of J now extended id bytes in
        IsDataFrame (largest_id frame.is_extended) frame
  frame_of-valid now true id bytes small h =
      let size = length-take (min (length bytes) 8) bytes in
      (small, omega (arith, size), omega arith, All-take IsByte _ bytes h, refl, refl)
  frame_of-valid now false id bytes small h =
      let size = length-take (min (length bytes) 8) bytes in
      (small, omega (arith, size), omega arith, All-take IsByte _ bytes h, refl, refl)

  -- A payload that the node takes gives a data frame of at most 8 bytes, with an identifier of its
  -- format and a length code that is the number of its bytes, and SLCAN has a line for it.
  pub accepted_frame_is_sent :
      (config : CanWriteNodeConfig) (now : DateTime) (payload : Value Number)
      (fields : Fields Number) (frame : CanFrame)
      → frame_from_payload J config now payload ≡ inr (fields, frame)
      → IsDataFrame (largest_id frame.is_extended) frame
        × (text : List ℕ) × (encode_slcan_frame frame ≡ line text)
  unfolding frame_from_payload
  accepted_frame_is_sent config now payload fields frame h =
      let map = into_payload_map J payload in
      let extended = bool_or J config.is_extended (get_field "is_extended" map) in
      >>=_elim (payload_id J map) _ (fields, frame) h
        (λ found _ h1.
          let id = id_or_default J found config.can_id in
          >>=_elim (or_refused J (validate_can_id id extended)) _ (fields, frame) h1
            (λ u ok h2.
              >>=_elim (payload_bytes J (get_field "data" map)) _ (fields, frame) h2
                (λ bytes read made.
                  let same : frame_of J now extended id bytes ≡ frame = cc in
                  let valid =
                    subst (λ f. IsDataFrame (largest_id f.is_extended) f) same
                      (frame_of-valid now extended id bytes (allowed id extended u ok)
                        (payload_bytes-bytes (get_field "data" map) bytes read)) in
                  let (text, sent) = sendable frame valid in (valid, text, sent))))
