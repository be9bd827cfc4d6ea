-- ===== src/MemoryQueue/Bytes.antt =====
-- `u64::to_le_bytes` and `u64::from_le_bytes`, by which an acknowledgement token carries a number.
use catapulte.Common.{
  ℕ, zero, suc, ◌+◌, ◌*◌, ◌/◌, ◌%◌, ◌^◌, ◌<◌, ◌≡◌, refl, List, [], ◌∷◌, Bool, ◌==◌, length, arith,
}

-- The lowest `k` bytes, the lowest first.
unfoldable pub le_bytes : ℕ → ℕ → List ℕ
le_bytes zero n = []
le_bytes (suc k) n = n % 256 ∷ le_bytes k (n / 256)

unfoldable pub to_le_bytes : ℕ → List ℕ
unfolding le_bytes
to_le_bytes n = le_bytes 8 n

unfoldable pub from_le_bytes : List ℕ → ℕ
from_le_bytes [] = 0
from_le_bytes (b ∷ bs) = b + 256 * from_le_bytes bs

-- Whether `try_into::<[u8; 8]>` accepts the bytes.
abbrev pub is_eight : List ℕ → Bool
is_eight bs = length bs == 8

-- A token of eight bytes gives back the number that was put into it.
pub from_le_bytes-to_le_bytes : (n : ℕ) → n < 2 ^ 64 → from_le_bytes (to_le_bytes n) ≡ n
unfolding from_le_bytes to_le_bytes
from_le_bytes-to_le_bytes n h = omega arith

pub length-to_le_bytes : (n : ℕ) → length (to_le_bytes n) ≡ 8
unfolding to_le_bytes
length-to_le_bytes n = refl
