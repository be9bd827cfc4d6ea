-- ===== src/Worker/Backoff.antt =====
-- The delay before a retry.
use native.Mathlib.Nat.{pow-le-pow_right, pow-succ'}
use catapulte.Common.{ℕ, suc, ◌+◌, ◌-◌, ◌*◌, ◌%◌, ◌^◌, ◌≤◌, ◌<◌, min, ◌≡◌, arith}
use catapulte.Worker.{backoff}

-- The amount of the shift is not cut off.
shift_amount : (n : ℕ) → n < 59 → (n + 1 - 1) % 64 ≡ n
shift_amount n h = omega arith

pow_bound : (n : ℕ) → n < 59 → 2 ^ n ≤ 2 ^ 58
pow_bound n h = pow-le-pow_right (omega arith) {i = n} {j = 58} (omega arith)

-- Nothing wraps around up to the attempt 59.
backoff-suc : (n : ℕ) → n < 59 → backoff (n + 1) ≡ min (30 * 2 ^ n) 3600
unfolding backoff
backoff-suc n h = rw (shift_amount n h) (omega (arith, pow_bound n h))

-- The delay starts at 30 seconds, and is twice the one before with each attempt, up to an hour:
-- the product does not wrap around for any attempt up to 59.
pub backoff_lem :
    (n : ℕ)
    → n < 58
    → (backoff 1 ≡ 30)
      × (backoff (suc n + 1) ≡ min (2 * backoff (n + 1)) 3600)
      × (backoff (n + 1) ≤ 3600)
backoff_lem n h =
    let here = backoff-suc n (omega arith) in
    let next = backoff-suc (suc n) (omega arith) in
    (backoff-suc 0 (omega arith), omega (arith, here, next, pow-succ' 2 n), omega (arith, here))
