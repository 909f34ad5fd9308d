-- ===== src/Can/Hex/Accepts.antt =====
-- What `decode` accepts: text that encodes the result, in either case of the letters.
use nazh.Base.{
  ℕ, ◌+◌, ◌-◌, ◌*◌, ◌/◌, ◌%◌, ◌<◌, ◌≡◌, refl, sym, ◌∙◌, Bool, true, ◌&&◌, List, [], ◌∷◌, ◌⊎◌, inl,
  inr, leb, ltb, ◌==◌, if◌then◌else◌, length, All, arith, Bool-cases, map,
}
use Prim.Native.Nat.{bit_and, bit_or}
use mathlib.Core.Path.{subst}
use nazh.Base.Results.{>>=_inv}
use nazh.Can.Hex.{IsByte, HexError, hex_char, encode, decode_hex_digit, decode_chunks, decode}
use nazh.Can.Hex.RoundTrip.{all_below, at_below}

-- `u8::to_ascii_uppercase`
unfoldable pub to_ascii_uppercase : ℕ → ℕ
to_ascii_uppercase c = if leb 97 c && leb c 122 then c - 32 else c

abbrev fits : ℕ → HexError ⊎ ℕ → Bool
fits c (inl _) = true
fits c (inr d) = ltb d 16 && (hex_char d == to_ascii_uppercase c)

digit_table : all_below 128 (λ c. fits c (decode_hex_digit c)) ≡ true
unfolding all_below hex_char decode_hex_digit to_ascii_uppercase
digit_table = refl

digit_is_ascii : (c d : ℕ) → decode_hex_digit c ≡ inr d → c < 128
unfolding decode_hex_digit
digit_is_ascii c d h = ground arith

digit_of : (c d : ℕ) → decode_hex_digit c ≡ inr d → (d < 16) × (hex_char d ≡ to_ascii_uppercase c)
digit_of c d h =
    let known =
      at_below 128 (λ k. fits k (decode_hex_digit k)) c digit_table (digit_is_ascii c d h) in
    let same : fits c (inr d) ≡ true = subst (λ o. fits c o ≡ true) h known in ground (arith, same)

abbrev splits : ℕ → ℕ → Bool
splits hi lo = let b = bit_or (hi * 16) lo in ltb b 256 && (b / 16 == hi) && (bit_and b 0x0f == lo)

split_table : all_below 256 (λ n. splits (n / 16) (n % 16)) ≡ true
unfolding all_below
split_table = refl

joined :
    (hi lo : ℕ)
    → hi < 16
    → lo < 16
    → let b = bit_or (hi * 16) lo in (b < 256) × (b / 16 ≡ hi) × (bit_and b 0x0f ≡ lo)
joined hi lo h l =
    let n = hi * 16 + lo in
    let known = at_below 256 (λ n. splits (n / 16) (n % 16)) n split_table (omega arith) in
    let high : n / 16 ≡ hi = omega arith in
    let low : n % 16 ≡ lo = omega arith in
    let ok : splits hi lo ≡ true =
      subst (λ k. splits hi k ≡ true) low (subst (λ k. splits k (n % 16) ≡ true) high known) in
    ground (arith, ok)

decode_chunks-inv :
    (a b : ℕ) (rest bytes : List ℕ)
    → decode_chunks (a ∷ b ∷ rest) ≡ inr bytes
    → (hi : ℕ) × (lo : ℕ) × (more : List ℕ) × (decode_hex_digit a ≡ inr hi)
      × (decode_hex_digit b ≡ inr lo)
      × (decode_chunks rest ≡ inr more)
      × (bytes ≡ bit_or (hi * 16) lo ∷ more)
unfolding decode_chunks
decode_chunks-inv a b rest bytes h =
    let (hi, ea, after_a) = >>=_inv (decode_hex_digit a) _ bytes h in
    let (lo, eb, after_b) = >>=_inv (decode_hex_digit b) _ bytes after_a in
    let (more, er, last) = >>=_inv (decode_chunks rest) _ bytes after_b in
    (hi, lo, more, ea, eb, er, cc)

abbrev IsTextOf : List ℕ → List ℕ → Type 0
IsTextOf hex bytes =
    (encode bytes ≡ map to_ascii_uppercase hex) × All IsByte bytes × (length hex ≡ 2 * length bytes)

decode_chunks-IsTextOf : (hex bytes : List ℕ) → decode_chunks hex ≡ inr bytes → IsTextOf hex bytes
unfolding decode_chunks encode
decode_chunks-IsTextOf [] bytes h =
    let p : [] ≡ bytes = cc in subst (IsTextOf []) p (refl, tt, refl)
decode_chunks-IsTextOf (a ∷ []) bytes h = absurd (ground arith)
decode_chunks-IsTextOf (a ∷ b ∷ rest) bytes h =
    let (hi, lo, more, ea, eb, er, last) = decode_chunks-inv a b rest bytes h in
    let high = digit_of a hi ea in
    let low = digit_of b lo eb in
    let (small, upper, lower) = joined hi lo high.0 low.0 in
    let (text, all, size) = decode_chunks-IsTextOf rest more er in
    let chars : encode (bit_or (hi * 16) lo ∷ more) ≡ map to_ascii_uppercase (a ∷ b ∷ rest) =
      rw (upper, encode) (rw (lower) (rw (high.1) (rw (low.1) (rw text refl)))) in
    subst (IsTextOf (a ∷ b ∷ rest)) (sym last) (chars, (small, all), omega (arith, size))

-- Text that `decode` takes has an even number of characters and decodes to half as many bytes, each
-- below 256, and to encode these gives the text with its letters in upper case.
pub encode-decode :
    (hex bytes : List ℕ)
    → decode hex ≡ inr bytes
    → (encode bytes ≡ map to_ascii_uppercase hex)
      × All IsByte bytes
      × (length hex ≡ 2 * length bytes)
unfolding decode
encode-decode hex bytes h = elim (Bool-cases (length hex % 2 == 0)) [
  | inl even ↦
      decode_chunks-IsTextOf hex bytes
        (let r : decode_chunks hex ≡ decode hex = rw (even, decode) refl in r ∙ h)
  | inr odd ↦ absurd (ground (arith, odd, h))
]
