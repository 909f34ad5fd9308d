-- ===== src/Can/Slcan/Lines.antt =====
-- The line of a data frame: what it looks like once it is trimmed, and how the two decoders read it.
use nazh.Base.{
  ℕ, ◌+◌, ◌*◌, ◌/◌, ◌<◌, ◌≤◌, ◌≡◌, refl, ap, sym, ◌∙◌, true, false, some, List, [], ◌∷◌, ◌++◌, inr,
  ltb, ◌==◌, length, length-append, map, All, All-append, arith, u32_max, ==_iff,
}
use Prim.Native.Nat.{bit_and}
use nazh.Connections.Types.{DateTime}
use mathlib.Core.List.{append_assoc}
use nazh.Can.Hex.{IsByte, hex_char, encode, decode}
use nazh.Can.Hex.Accepts.{to_ascii_uppercase}
use nazh.Can.Hex.RoundTrip.{all_below, at_below, nibbles, length-encode, decode-encode}
use nazh.Can.Numerals.{from_str_radix, upper_hex, trim, trim_end, take, slice}
use nazh.Can.Numerals.Laws.{
  IsPlain, hex_char-IsDigitOf, decimal-IsDigitOf, from_str_radix-upper_hex, from_str_radix-decimal,
  upper_hex-IsPlain, trim-append, take-append,
}
use nazh.Can.Slcan.{received, decode_standard, decode_extended}

encode-IsPlain : (bytes : List ℕ) → All IsByte bytes → All IsPlain (encode bytes)
unfolding encode
encode-IsPlain [] h = tt
encode-IsPlain (b ∷ bytes) h =
    let high = hex_char-IsDigitOf (b / 16) (omega (arith, h.0)) in
    let low = hex_char-IsDigitOf (bit_and b 0x0f) (omega (arith, (nibbles b h.0).1)) in
    ((high.1, high.2), ((low.1, low.2), encode-IsPlain bytes h.1))

upper_table : all_below 16 (λ d. to_ascii_uppercase (hex_char d) == hex_char d) ≡ true
unfolding all_below hex_char to_ascii_uppercase
upper_table = refl

upper : (d : ℕ) → d < 16 → to_ascii_uppercase (hex_char d) ≡ hex_char d
upper d h = (==_iff _ _).0 (at_below 16 _ d upper_table h)

pub map-encode :
    (bytes : List ℕ) → All IsByte bytes → map to_ascii_uppercase (encode bytes) ≡ encode bytes
unfolding encode
map-encode [] h = refl
map-encode (b ∷ bytes) h = rw (upper (b / 16) (omega (arith, h.0))) (
    rw (upper (bit_and b 0x0f) (omega (arith, (nibbles b h.0).1))) (rw (map-encode bytes h.1) refl))

decode_standard-step :
    (now : DateTime) (text : List ℕ) (id dlc : ℕ) (bytes : List ℕ)
    → ltb (length text) 5 ≡ false
    → from_str_radix 16 u32_max (slice 1 3 text) ≡ some id
    → from_str_radix 10 255 (slice 4 1 text) ≡ some dlc
    → ltb (length text) (5 + dlc * 2) ≡ false
    → decode (slice 5 (dlc * 2) text) ≡ inr bytes
    → decode_standard now text ≡ some (received now id bytes dlc false false)
unfolding decode_standard
decode_standard-step now text id dlc bytes long eid edlc enough edata =
    rw (long, decode_standard) (rw (eid) (rw (edlc) (rw (enough) (rw (edata) refl))))

decode_extended-step :
    (now : DateTime) (text : List ℕ) (id dlc : ℕ) (bytes : List ℕ)
    → ltb (length text) 11 ≡ false
    → from_str_radix 16 u32_max (slice 1 8 text) ≡ some id
    → from_str_radix 10 255 (slice 9 1 text) ≡ some dlc
    → ltb (length text) (10 + dlc * 2) ≡ false
    → decode (slice 10 (dlc * 2) text) ≡ inr bytes
    → decode_extended now text ≡ some (received now id bytes dlc true false)
unfolding decode_extended
decode_extended-step now text id dlc bytes long eid edlc enough edata =
    rw (long, decode_extended) (rw (eid) (rw (edlc) (rw (enough) (rw (edata) refl))))

-- the data of a line, whatever stands behind it
data_at :
    (bytes rest : List ℕ) (dlc : ℕ)
    → All IsByte bytes
    → dlc ≡ length bytes
    → decode (take (dlc * 2) (encode bytes ++ rest)) ≡ inr bytes
data_at bytes rest dlc h e =
    let size : dlc * 2 ≡ length (encode bytes) = omega (arith, length-encode bytes) in
    rw size (rw (take-append (encode bytes) rest) (decode-encode bytes h))

pub read_standard :
    (now : DateTime) (id dlc : ℕ) (bytes rest : List ℕ)
    → id ≤ 0x7FF
    → dlc ≡ length bytes
    → dlc ≤ 8
    → All IsByte bytes
    → decode_standard now (116 ∷ upper_hex 3 id ++ ((48 + dlc) ∷ encode bytes ++ rest))
      ≡ some (received now id bytes dlc false false)
unfolding upper_hex
read_standard now id dlc bytes rest small e short h =
    let text = 116 ∷ upper_hex 3 id ++ ((48 + dlc) ∷ encode bytes ++ rest) in
    let size : length text ≡ 5 + (2 * length bytes + length rest) =
      omega (arith, length-append (encode bytes) rest, length-encode bytes) in
    decode_standard-step now text id dlc bytes (ground (arith, size))
      (from_str_radix-upper_hex 3 id u32_max (omega arith) (omega arith) (omega arith))
      (from_str_radix-decimal dlc 255 (omega arith) (omega arith)) (ground (arith, size))
      (data_at bytes rest dlc h e)

pub read_extended :
    (now : DateTime) (id dlc : ℕ) (bytes rest : List ℕ)
    → id ≤ 0x1FFFFFFF
    → dlc ≡ length bytes
    → 1 ≤ dlc
    → dlc ≤ 8
    → All IsByte bytes
    → decode_extended now (84 ∷ upper_hex 8 id ++ ((48 + dlc) ∷ encode bytes ++ rest))
      ≡ some (received now id bytes dlc true false)
unfolding upper_hex
read_extended now id dlc bytes rest small e pos short h =
    let text = 84 ∷ upper_hex 8 id ++ ((48 + dlc) ∷ encode bytes ++ rest) in
    let size : length text ≡ 10 + (2 * length bytes + length rest) =
      omega (arith, length-append (encode bytes) rest, length-encode bytes) in
    decode_extended-step now text id dlc bytes (ground (arith, size))
      (from_str_radix-upper_hex 8 id u32_max (omega arith) (omega arith) (omega arith))
      (from_str_radix-decimal dlc 255 (omega arith) (omega arith)) (ground (arith, size))
      (data_at bytes rest dlc h e)

-- the line of a frame, once it is trimmed: only what stands behind the data may change
pub trimmed :
    (head width id dlc : ℕ) (bytes rest : List ℕ)
    → IsPlain head
    → dlc ≤ 8
    → All IsByte bytes
    → trim (head ∷ upper_hex width id ++ ((48 + dlc) ∷ encode bytes ++ rest))
      ≡ head ∷ upper_hex width id ++ ((48 + dlc) ∷ encode bytes ++ trim_end rest)
trimmed head width id dlc bytes rest plain short h =
    let digit = decimal-IsDigitOf dlc (omega arith) in
    let tail = (48 + dlc) ∷ encode bytes in
    let all : All IsPlain (head ∷ upper_hex width id ++ tail) = (
      plain,
      All-append IsPlain (upper_hex width id) tail (upper_hex-IsPlain width id)
          ((digit.1, digit.2), encode-IsPlain bytes h),
    ) in
    let parts = append_assoc (upper_hex width id) tail in
    ap (λ text. trim (head ∷ text)) (sym (parts rest))
    ∙ trim-append head (upper_hex width id ++ tail) rest all
    ∙ ap (λ text. head ∷ text) (parts (trim_end rest))
