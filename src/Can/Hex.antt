-- ===== src/Can/Hex.antt =====
-- Bytes as hexadecimal text, crates/nodes-io/src/can/hex.rs.
use nazh.Base.{
  ℕ, suc, ◌+◌, ◌-◌, ◌*◌, ◌/◌, ◌%◌, ◌<◌, Bool, true, false, ◌&&◌, Option, none, some, List, [], ◌∷◌,
  ◌⊎◌, inl, inr, leb, ◌==◌, if◌then◌else◌, length, get_elem?,
}
use Prim.Native.Nat.{bit_and, bit_or}
use nazh.Base.Results.{◌>>=◌}
pub mod RoundTrip
pub mod Accepts

abbrev pub IsByte : ℕ → Type 0
IsByte b = b < 256

pub data HexError : Type 0 where
  odd_length : HexError
  invalid_char : ℕ → HexError

-- `HEX_CHARS`: the ASCII codes of 0-9 and A-F
abbrev pub hex_chars : List ℕ
hex_chars = 48 ∷ 49 ∷ 50 ∷ 51 ∷ 52 ∷ 53 ∷ 54 ∷ 55 ∷ 56 ∷ 57 ∷ 65 ∷ 66 ∷ 67 ∷ 68 ∷ 69 ∷ 70 ∷ []

-- `HEX_CHARS[n]`; both callers give a number below 16
unfoldable pub hex_char : ℕ → ℕ
hex_char n = elim (get_elem? hex_chars n) [ none ↦ 0 | some c ↦ c ]

unfoldable pub encode : List ℕ → List ℕ
encode [] = []
encode (byte ∷ bytes) = hex_char (byte / 16) ∷ hex_char (bit_and byte 0x0f) ∷ encode bytes

unfoldable pub decode_hex_digit : ℕ → HexError ⊎ ℕ
decode_hex_digit c =
    if leb 48 c && leb c 57
    then inr (c - 48)
    else if leb 97 c && leb c 102
    then inr (c - 97 + 10)
    else if leb 65 c && leb c 70
    then inr (c - 65 + 10)
    else inl (invalid_char c)

-- the loop of `decode`; its chunks have two bytes
unfoldable pub decode_chunks : List ℕ → HexError ⊎ List ℕ
unfolding decode_hex_digit
decode_chunks [] = inr []
decode_chunks (a ∷ []) = inl odd_length
decode_chunks (a ∷ b ∷ rest) = do
  hi ← decode_hex_digit a
  lo ← decode_hex_digit b
  bytes ← decode_chunks rest
  inr (bit_or (hi * 16) lo ∷ bytes)

unfoldable pub decode : List ℕ → HexError ⊎ List ℕ
unfolding decode_chunks
decode hex = if length hex % 2 == 0 then decode_chunks hex else inl odd_length
