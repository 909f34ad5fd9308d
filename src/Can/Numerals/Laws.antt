-- ===== src/Can/Numerals/Laws.antt =====
-- Numbers are formatted and parsed without loss; text without blanks is not trimmed.
use nazh.Base.{
  ℕ, zero, suc, ◌+◌, ◌-◌, ◌*◌, ◌/◌, ◌%◌, ◌^◌, ◌<◌, ◌≤◌, ◌≡◌, refl, ap, sym, ◌∙◌, Bool, true, false,
  ◌&&◌, not, none, some, List, [], ◌∷◌, ◌++◌, inl, inr, ltb, ◌==◌, length, min, All, All-append,
  arith, Option-cases, length-append, List-cases,
}
use mathlib.Core.Path.{subst}
use nazh.Base.Options.{◌>>=◌}
use nazh.Can.Hex.{hex_char}
use nazh.Can.Hex.RoundTrip.{all_below, at_below}
use nazh.Can.Numerals.{
  to_digit, read_digit, read_digits, strip_plus, from_str_radix, upper_hex, is_space, trim_start,
  trim_end, trim, take, drop, slice,
}

-- a character of a number's text: it is read as a digit of the radix, and is neither `+` nor a blank
abbrev pub IsDigitOf : ℕ → ℕ → ℕ → Type 0
IsDigitOf radix c d = (to_digit radix c ≡ some d) × ((c == 43) ≡ false) × (is_space c ≡ false)

abbrev reads : ℕ → ℕ → ℕ → Bool
reads radix c d =
    elim (to_digit radix c) [ none ↦ false | some v ↦ v == d ] && not (c == 43) && not (is_space c)

reads→IsDigitOf : (radix c d : ℕ) → reads radix c d ≡ true → IsDigitOf radix c d
reads→IsDigitOf radix c d h = elim (Option-cases (to_digit radix c)) [
  | inl e ↦ absurd (ground (arith, e, h))
  | inr (v, e) ↦ ground (arith, e, h)
]

hex_table : all_below 16 (λ d. reads 16 (hex_char d) d) ≡ true
unfolding all_below to_digit hex_char is_space
hex_table = refl

decimal_table : all_below 10 (λ d. reads 10 (48 + d) d) ≡ true
unfolding all_below to_digit is_space
decimal_table = refl

pub hex_char-IsDigitOf : (d : ℕ) → d < 16 → IsDigitOf 16 (hex_char d) d
hex_char-IsDigitOf d h = reads→IsDigitOf 16 (hex_char d) d (at_below 16 _ d hex_table h)

pub decimal-IsDigitOf : (d : ℕ) → d < 10 → IsDigitOf 10 (48 + d) d
decimal-IsDigitOf d h = reads→IsDigitOf 10 (48 + d) d (at_below 10 _ d decimal_table h)

pub read_digits-append :
    (radix limit acc : ℕ) (xs ys : List ℕ)
    → read_digits radix limit acc (xs ++ ys)
      ≡ (read_digits radix limit acc xs >>= λ v. read_digits radix limit v ys)
unfolding read_digits
read_digits-append radix limit acc [] ys = refl
read_digits-append radix limit acc (c ∷ xs) ys =
    elim (Option-cases (read_digit radix limit acc c)) [
      | inl e ↦ rw (e, read_digits) refl
      | inr (v, e) ↦ rw (e, read_digits) (read_digits-append radix limit v xs ys)
    ]

read_digit_lem :
    (radix limit acc c d : ℕ)
    → IsDigitOf radix c d
    → acc * radix + d ≤ limit
    → read_digit radix limit acc c ≡ some (acc * radix + d)
unfolding read_digit
read_digit_lem radix limit acc c d h small = rw (h.0) (ground arith)

read_digits-upper_hex :
    (w n limit : ℕ) → n < 16 ^ w → n ≤ limit → read_digits 16 limit 0 (upper_hex w n) ≡ some n
unfolding read_digits upper_hex
read_digits-upper_hex zero n limit h small = let z : 0 ≡ n = omega arith in ap some z
read_digits-upper_hex (suc w) n limit h small =
    let before = read_digits-upper_hex w (n / 16) limit (omega arith) (omega arith) in
    let last =
      read_digit_lem 16 limit (n / 16) (hex_char (n % 16)) (n % 16)
        (hex_char-IsDigitOf (n % 16) (omega arith)) (omega arith) in
    let value : n / 16 * 16 + n % 16 ≡ n = omega arith in
    rw (read_digits-append 16 limit 0 (upper_hex w (n / 16)) (hex_char (n % 16) ∷ []))
      (rw before (rw last (ap some value)))

abbrev pub IsPlain : ℕ → Type 0
IsPlain c = ((c == 43) ≡ false) × (is_space c ≡ false)

pub upper_hex-IsPlain : (w n : ℕ) → All IsPlain (upper_hex w n)
unfolding upper_hex
upper_hex-IsPlain zero n = tt
upper_hex-IsPlain (suc w) n =
    let plain = hex_char-IsDigitOf (n % 16) (omega arith) in
    All-append IsPlain (upper_hex w (n / 16)) (hex_char (n % 16) ∷ [])
      (upper_hex-IsPlain w (n / 16)) ((plain.1, plain.2), tt)

no_sign :
    (radix limit c : ℕ) (cs : List ℕ)
    → IsPlain c
    → from_str_radix radix limit (c ∷ cs) ≡ read_digits radix limit 0 (c ∷ cs)
unfolding from_str_radix strip_plus
no_sign radix limit c cs h =
    let kept : strip_plus (c ∷ cs) ≡ c ∷ cs = rw (h.0, strip_plus) refl in
    rw (kept, from_str_radix) refl

pub length-upper_hex : (w n : ℕ) → length (upper_hex w n) ≡ w
unfolding upper_hex
length-upper_hex zero n = refl
length-upper_hex (suc w) n = omega (
  arith,
  length-append (upper_hex w (n / 16)) (hex_char (n % 16) ∷ []),
  length-upper_hex w (n / 16),
)

-- A number below 16 ^ w that is formatted with w hexadecimal digits is parsed to the same number.
pub from_str_radix-upper_hex :
    (w n limit : ℕ)
    → 0 < w
    → n < 16 ^ w
    → n ≤ limit
    → from_str_radix 16 limit (upper_hex w n) ≡ some n
from_str_radix-upper_hex w n limit pos h small = elim (List-cases (upper_hex w n)) [
  | inl e ↦ absurd (ground (arith, length-upper_hex w n, e))
  | inr (c, cs, e) ↦
      let plain : All IsPlain (c ∷ cs) = subst (All IsPlain) e (upper_hex-IsPlain w n) in
      rw e (
        no_sign 16 limit c cs plain.0
        ∙ (let r = read_digits-upper_hex w n limit h small in rw (sym e) r))
]

pub from_str_radix-decimal :
    (d limit : ℕ) → d < 10 → d ≤ limit → from_str_radix 10 limit ((48 + d) ∷ []) ≡ some d
unfolding read_digits
from_str_radix-decimal d limit h small =
    let digit = decimal-IsDigitOf d h in
    no_sign 10 limit (48 + d) [] (digit.1, digit.2)
    ∙ rw (read_digit_lem 10 limit 0 (48 + d) d digit (omega arith)) (ap some (omega arith))

pub trim_end-append : (xs ys : List ℕ) → All IsPlain xs → trim_end (xs ++ ys) ≡ xs ++ trim_end ys
unfolding trim_end
trim_end-append [] ys h = refl
trim_end-append (c ∷ xs) ys h = rw ((h.0).1) (ap (λ rest. c ∷ rest) (trim_end-append xs ys h.1))

-- Text that starts with a character that is no blank loses blanks only behind the plain characters.
pub trim-append :
    (c : ℕ) (xs ys : List ℕ) → All IsPlain (c ∷ xs) → trim (c ∷ xs ++ ys) ≡ c ∷ xs ++ trim_end ys
unfolding trim trim_start
trim-append c xs ys h = rw ((h.0).1) (trim_end-append (c ∷ xs) ys h)

pub take-append : (xs ys : List ℕ) → take (length xs) (xs ++ ys) ≡ xs
take-append [] ys = refl
take-append (x ∷ xs) ys = ap (λ rest. x ∷ rest) (take-append xs ys)

pub take-length : (xs : List ℕ) → take (length xs) xs ≡ xs
take-length [] = refl
take-length (x ∷ xs) = ap (λ rest. x ∷ rest) (take-length xs)

length-drop : (start : ℕ) (text : List ℕ) → length (drop start text) ≡ length text - start
length-drop zero text = omega arith
length-drop (suc start) [] = omega arith
length-drop (suc start) (c ∷ text) = omega (arith, length-drop start text)

pub length-take : (count : ℕ) (text : List ℕ) → length (take count text) ≡ min count (length text)
length-take zero text = omega arith
length-take (suc count) [] = omega arith
length-take (suc count) (c ∷ text) = omega (arith, length-take count text)

pub length-slice :
    (start count : ℕ) (text : List ℕ)
    → ltb (length text) (start + count) ≡ false
    → length (slice start count text) ≡ count
length-slice start count text h =
    ground (arith, length-take count (drop start text), length-drop start text)

pub All-take {κ} :
    (P : ℕ → Type κ) (count : ℕ) (text : List ℕ) → All P text → All P (take count text)
All-take P zero text h = tt
All-take P (suc count) [] h = tt
All-take P (suc count) (c ∷ text) h = (h.0, All-take P count text h.1)
