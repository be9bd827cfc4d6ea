-- ===== src/Entity/Sender.antt =====
-- domain/src/entity/sender.rs: configured senders and their quotas. Milliseconds are i64 values.
pub mod Window
use catapulte.Common.{ℕ, String, Option}
use catapulte.Common.Int.{ℤ, pos, saturating_sub, max_ℤ}

pub record SenderName : Type 0 where
  pub as_str : String

pub data QuotaRange : Type 0 where
  hourly daily weekly monthly : QuotaRange

unfoldable pub to_string : QuotaRange → String
to_string hourly = "hourly"
to_string daily = "daily"
to_string weekly = "weekly"
to_string monthly = "monthly"

-- The `offset` of `QuotaRange::since_ms`.
unfoldable pub offset : QuotaRange → ℕ
offset hourly = 3600000
offset daily = 86400000
offset weekly = 604800000
offset monthly = 2592000000

unfoldable pub since_ms : QuotaRange → ℤ → ℤ
unfolding offset
since_ms range now_ms = max_ℤ (saturating_sub now_ms (pos (offset range))) (pos 0)

pub record SenderQuota : Type 0 where
  pub count : ℕ
  pub range : QuotaRange

pub record SenderConfig : Type 0 where
  pub name : SenderName
  pub quota : Option SenderQuota
  pub match_sender_domain : Option String
