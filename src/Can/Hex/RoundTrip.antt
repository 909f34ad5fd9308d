-- ===== src/Can/Hex/RoundTrip.antt =====
-- Bytes are encoded and decoded without loss.
use nazh.Base.{
  ℕ, zero, suc, ◌*◌, ◌/◌, ◌%◌, ◌<◌, ◌≡◌, refl, ap, Bool, true, false, ◌&&◌, List, [], ◌∷◌, ◌⊎◌, inl,
  inr, ◌==◌, ==_iff, length, All, arith, ◌∙◌,
}
use Prim.Native.Nat.{bit_and, bit_or}
use nazh.Can.Hex.{IsByte, HexError, hex_char, encode, decode_hex_digit, decode_chunks, decode}

-- Over a small range, every value is tried.
unfoldable pub all_below : ℕ → (ℕ → Bool) → Bool
all_below zero p = true
all_below (suc n) p = p n && all_below n p

pub at_below : (n : ℕ) (p : ℕ → Bool) (x : ℕ) → all_below n p ≡ true → x < n → p x ≡ true
unfolding all_below
at_below zero p x h lt = absurd (omega arith)
at_below (suc n) p x h lt = ground (arith, at_below n p x)

-- whether a digit's character reads back as the digit
abbrev reads_back : ℕ → Bool
reads_back d = elim (decode_hex_digit (hex_char d)) [ inl _ ↦ false | inr v ↦ v == d ]

digit_table : all_below 16 reads_back ≡ true
unfolding all_below hex_char decode_hex_digit
digit_table = refl

abbrev joins : ℕ → Bool
joins b = (bit_or (b / 16 * 16) (b % 16) == b) && (bit_and b 0x0f == b % 16)

join_table : all_below 256 joins ≡ true
unfolding all_below
join_table = refl

reads_back→ :
    (o : HexError ⊎ ℕ) (d : ℕ) → (elim o [ inl _ ↦ false | inr v ↦ v == d ]) ≡ true → o ≡ inr d
reads_back→ (inl e) d h = ground arith
reads_back→ (inr v) d h = ap inr ((==_iff v d).0 h)

pub decode_hex_digit-hex_char : (d : ℕ) → d < 16 → decode_hex_digit (hex_char d) ≡ inr d
decode_hex_digit-hex_char d h = reads_back→ _ d (at_below 16 reads_back d digit_table h)

pub nibbles : (b : ℕ) → IsByte b → (bit_or (b / 16 * 16) (b % 16) ≡ b) × (bit_and b 0x0f ≡ b % 16)
nibbles b h = ground (arith, at_below 256 joins b join_table h)

pub length-encode : (bytes : List ℕ) → length (encode bytes) ≡ 2 * length bytes
unfolding encode
length-encode [] = refl
length-encode (b ∷ bytes) = omega (arith, length-encode bytes)

decode_chunks-step :
    (a b hi lo : ℕ) (rest bytes : List ℕ)
    → decode_hex_digit a ≡ inr hi
    → decode_hex_digit b ≡ inr lo
    → decode_chunks rest ≡ inr bytes
    → decode_chunks (a ∷ b ∷ rest) ≡ inr (bit_or (hi * 16) lo ∷ bytes)
unfolding decode_chunks
decode_chunks-step a b hi lo rest bytes ea eb er =
    rw (ea, decode_chunks) (rw (eb, decode_chunks) (rw (er, decode_chunks) refl))

pub decode_chunks-encode :
    (bytes : List ℕ) → All IsByte bytes → decode_chunks (encode bytes) ≡ inr bytes
unfolding encode decode_chunks
decode_chunks-encode [] h = refl
decode_chunks-encode (b ∷ bytes) h =
    let split = nibbles b h.0 in
    let low : decode_hex_digit (hex_char (bit_and b 0x0f)) ≡ inr (b % 16) =
      rw (split.1) (decode_hex_digit-hex_char (b % 16) (omega arith)) in
    let step =
      decode_chunks-step (hex_char (b / 16)) (hex_char (bit_and b 0x0f)) _ _ (encode bytes) bytes
        (decode_hex_digit-hex_char (b / 16) (omega (arith, h.0))) low
        (decode_chunks-encode bytes h.1) in
    step ∙ ap (λ v. inr (v ∷ bytes)) split.0

-- Bytes that are encoded are decoded to the same bytes.
pub decode-encode : (bytes : List ℕ) → All IsByte bytes → decode (encode bytes) ≡ inr bytes
unfolding decode
decode-encode bytes h =
    let even : (length (encode bytes) % 2 == 0) ≡ true = ground (arith, length-encode bytes) in
    rw even (decode_chunks-encode bytes h)
