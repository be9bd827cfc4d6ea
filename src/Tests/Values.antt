-- ===== src/Tests/Values.antt =====
-- Delays between attempts.
use catapulte.Common.{◌*◌, ◌≤◌, min, ◌≡◌, arith}
use catapulte.Worker.{backoff}
use catapulte.Worker.Backoff.{backoff_lem}

backoff_lem_example : (backoff 1 ≡ 30) × (backoff 2 ≡ min (2 * backoff 1) 3600) × (backoff 1 ≤ 3600)
backoff_lem_example = backoff_lem 0 (omega arith)
