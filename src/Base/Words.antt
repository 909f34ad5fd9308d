-- ===== src/Base/Words.antt =====
-- The arithmetic of `u32` and `u64` that the program uses: it saturates.
use Prim.Native.Nat.{ℕ, ◌+◌, ◌*◌, ◌≤◌, min}
use native.Mathlib.Omega.{arith}

abbrev pub u32_max : ℕ
u32_max = 4294967295

abbrev pub u64_max : ℕ
u64_max = 18446744073709551615

abbrev pub i64_max : ℕ
i64_max = 9223372036854775807

-- `u32::saturating_add(1)`
unfoldable pub bump_u32 : ℕ → ℕ
bump_u32 n = min (n + 1) u32_max

-- `u64::saturating_mul`
unfoldable pub saturating_mul_u64 : ℕ → ℕ → ℕ
saturating_mul_u64 a b = min (a * b) u64_max

pub bump_u32_mono : (a b : ℕ) → a ≤ b → bump_u32 a ≤ bump_u32 b
unfolding bump_u32
bump_u32_mono a b h = omega arith

pub bump_u32-le : (a : ℕ) → bump_u32 a ≤ u32_max
unfolding bump_u32
bump_u32-le a = omega arith
