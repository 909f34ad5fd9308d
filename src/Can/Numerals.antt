-- ===== src/Can/Numerals.antt =====
-- `from_str_radix` and `parse` of Rust's unsigned integers, the formats `{:0wX}`, `str::trim` and
-- slices, on lists of bytes. The protocol's text is ASCII, where a byte is a character.
use nazh.Base.{
  ℕ, zero, suc, ◌+◌, ◌-◌, ◌*◌, ◌/◌, ◌%◌, Bool, true, false, ◌&&◌, ◌||◌, Option, none, some, List,
  [], ◌∷◌, ◌++◌, ltb, leb, ◌==◌, if◌then◌else◌,
}
use nazh.Base.Options.{◌>>=◌}
use nazh.Can.Hex.{hex_char}
pub mod Laws

-- `char::to_digit`, with a radix of 10 or more
unfoldable pub to_digit : ℕ → ℕ → Option ℕ
to_digit radix c =
    let value =
      if leb 48 c && leb c 57
      then some (c - 48)
      else if leb 97 c && leb c 122
      then some (c - 87)
      else if leb 65 c && leb c 90
      then some (c - 55)
      else none in
    elim value [ none ↦ none | some v ↦ if ltb v radix then some v else none ]

-- one more digit of a number that has the value `acc` so far; none is overflow or no digit
unfoldable pub read_digit : ℕ → ℕ → ℕ → ℕ → Option ℕ
unfolding to_digit
read_digit radix limit acc c = do
  v ← to_digit radix c
  if ltb limit (acc * radix + v) then none else some (acc * radix + v)

unfoldable pub read_digits : ℕ → ℕ → ℕ → List ℕ → Option ℕ
unfolding read_digit
read_digits radix limit acc [] = some acc
read_digits radix limit acc (c ∷ cs) = do
  value ← read_digit radix limit acc c
  read_digits radix limit value cs

unfoldable pub strip_plus : List ℕ → List ℕ
strip_plus [] = []
strip_plus (c ∷ cs) = if c == 43 then cs else c ∷ cs

-- `from_str_radix(s, radix).ok()` of the unsigned type whose largest value is `limit`
unfoldable pub from_str_radix : ℕ → ℕ → List ℕ → Option ℕ
unfolding read_digits strip_plus
from_str_radix radix limit s = elim (strip_plus s) [
  | [] ↦ none
  | c ∷ cs ↦ read_digits radix limit 0 (c ∷ cs)
]

-- `{:0wX}` of a number below 16 ^ w
unfoldable pub upper_hex : ℕ → ℕ → List ℕ
upper_hex zero n = []
upper_hex (suc w) n = upper_hex w (n / 16) ++ (hex_char (n % 16) ∷ [])

-- the ASCII part of Unicode's `White_Space`
unfoldable pub is_space : ℕ → Bool
is_space c = (leb 9 c && leb c 13) || (c == 32)

unfoldable pub trim_start : List ℕ → List ℕ
unfolding is_space
trim_start [] = []
trim_start (c ∷ cs) = let rest = trim_start cs in if is_space c then rest else c ∷ cs

abbrev pub is_empty : List ℕ → Bool
is_empty [] = true
is_empty (_ ∷ _) = false

unfoldable pub trim_end : List ℕ → List ℕ
unfolding is_space
trim_end [] = []
trim_end (c ∷ cs) = let rest = trim_end cs in if is_space c && is_empty rest then [] else c ∷ rest

unfoldable pub trim : List ℕ → List ℕ
unfolding trim_start trim_end
trim s = trim_end (trim_start s)

abbrev pub take : ℕ → List ℕ → List ℕ
take zero xs = []
take (suc n) [] = []
take (suc n) (x ∷ xs) = x ∷ take n xs

abbrev pub drop : ℕ → List ℕ → List ℕ
drop zero xs = xs
drop (suc n) [] = []
drop (suc n) (x ∷ xs) = drop n xs

-- `&s[start..start + count]` within the bounds of `s`
abbrev pub slice : ℕ → ℕ → List ℕ → List ℕ
slice start count s = take count (drop start s)
