-- ===== src/Common/Int.antt =====
-- Signed integers over the native numbers, and i64 arithmetic that saturates at its ends.
use Prim.Native.Nat.{ℕ, suc, ◌+◌, ◌-◌}
use catapulte.Common.Tests.{ltb, leb, ◌==◌, if◌then◌else◌}
use mathlib.Core.Bool.{Bool, ◌&&◌}

-- `negsuc n` is -(n + 1).
pub data ℤ : Type 0 where
  pos : ℕ → ℤ
  negsuc : ℕ → ℤ

abbrev pub pos_part : ℤ → ℕ
pos_part (pos n) = n
pos_part (negsuc n) = 0

abbrev pub neg_part : ℤ → ℕ
neg_part (pos n) = 0
neg_part (negsuc n) = suc n

-- a - b, as an integer.
abbrev pub sub_ℕ : ℕ → ℕ → ℤ
sub_ℕ a b = if leb b a then pos (a - b) else negsuc (b - a - 1)

abbrev pub ltb_ℤ : ℤ → ℤ → Bool
ltb_ℤ a b = ltb (pos_part a + neg_part b) (pos_part b + neg_part a)

abbrev pub eqb_ℤ : ℤ → ℤ → Bool
eqb_ℤ a b = pos_part a == pos_part b && neg_part a == neg_part b

-- The greatest i64, and -1 minus the least.
abbrev pub i64_max : ℕ
i64_max = 9223372036854775807

-- The integer nearest to `a` that an i64 holds.
abbrev pub clamp_i64 : ℤ → ℤ
clamp_i64 (pos n) = if ltb i64_max n then pos i64_max else pos n
clamp_i64 (negsuc n) = if ltb i64_max n then negsuc i64_max else negsuc n

-- `i64::saturating_sub` and `i64::saturating_add`.
abbrev pub saturating_sub : ℤ → ℤ → ℤ
saturating_sub a b = clamp_i64 (sub_ℕ (pos_part a + neg_part b) (neg_part a + pos_part b))

abbrev pub saturating_add : ℤ → ℤ → ℤ
saturating_add a b = clamp_i64 (sub_ℕ (pos_part a + pos_part b) (neg_part a + neg_part b))

-- `Ord::max` on i64.
abbrev pub max_ℤ : ℤ → ℤ → ℤ
max_ℤ a b = if ltb_ℤ b a then a else b
