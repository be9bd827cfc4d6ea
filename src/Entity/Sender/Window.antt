-- ===== src/Entity/Sender/Window.antt =====
-- Where the window of a quota starts.
use catapulte.Common.{ℕ, ◌-◌, ◌≤◌, ◌≡◌, arith}
use catapulte.Common.Int.{pos, negsuc, i64_max}
use catapulte.Entity.Sender.{QuotaRange, hourly, daily, weekly, monthly, offset, since_ms}

-- At a time after the epoch that an i64 holds, a window starts the length of its range earlier,
-- but not before the epoch; before the epoch it starts at the epoch.
since_ms_lem :
    (range : QuotaRange) (now : ℕ)
    → now ≤ i64_max
    → (since_ms range (pos now) ≡ pos (now - offset range)) × (since_ms range (negsuc now) ≡ pos 0)
unfolding since_ms offset
since_ms_lem hourly now h = (ground arith, ground arith)
since_ms_lem daily now h = (ground arith, ground arith)
since_ms_lem weekly now h = (ground arith, ground arith)
since_ms_lem monthly now h = (ground arith, ground arith)
