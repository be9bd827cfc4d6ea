-- ===== src/ListSenders.antt =====
-- domain/src/use_case/list_senders.rs: the configured senders with what they have sent in the window
-- of their quota. The order in which a `HashMap` yields its entries is the parameter `order`.
pub mod Outcome
pub mod Grouping
use catapulte.Common.{
  ℕ, String, List, [], ◌∷◌, Option, none, some, Result, ok, err, str_eq, if◌then◌else◌,
}
use catapulte.Common.Int.{ℤ, pos}
use catapulte.Entity.Sender.{SenderConfig, SenderName, since_ms}
use catapulte.Port.Types.{SenderStats, SenderUsageError}
use catapulte.Port.Call.{Exec, Oracle, ask, ret, ◌>>=◌, get_stats, now_ms}
use catapulte.Routing.{Groups, push_name}

pub record SenderSnapshot : Type 0 where
  pub config : SenderConfig
  pub sent_in_range : ℕ
  pub failed_in_range : ℕ

pub data ListSendersError : Type 0 where
  usage : SenderUsageError → ListSendersError

-- The start of the window of a sender, 0 without a quota.
unfoldable pub config_since : ℤ → SenderConfig → ℤ
config_since now c = elim c.quota [ some q ↦ since_ms q.range now | none ↦ pos 0 ]

unfoldable pub group_configs : ℤ → List SenderConfig → Groups → Groups
group_configs now [] groups = groups
group_configs now (c ∷ cs) groups =
    group_configs now cs (push_name (config_since now c) c.name groups)

-- `stats_map.insert(s.name.clone(), s)`: an entry in front hides those of its name behind it.
unfoldable pub insert_stats : List SenderStats → List SenderStats → List SenderStats
insert_stats [] known = known
insert_stats (s ∷ rest) known = insert_stats rest (s ∷ known)

unfoldable pub stats_of : SenderName → List SenderStats → Option SenderStats
stats_of name [] = none
stats_of name (s ∷ rest) = if str_eq s.name.as_str name.as_str then some s else stats_of name rest

unfoldable pub snapshot : List SenderStats → SenderConfig → SenderSnapshot
snapshot known c = elim (stats_of c.name known) [
  | some s ↦ record {
    config = c;
    sent_in_range = s.sent_in_range;
    failed_in_range = s.failed_in_range;
  }
  | none ↦ record { config = c; sent_in_range = 0; failed_in_range = 0 }
]

unfoldable pub snapshots : List SenderStats → List SenderConfig → List SenderSnapshot
snapshots known [] = []
snapshots known (c ∷ cs) = snapshot known c ∷ snapshots known cs

module _ (o : Oracle) where
  -- The loop over the groups; the first failure ends it.
  unfoldable pub query_groups :
      Groups → List SenderStats → Exec (Result (List SenderStats) ListSendersError)
  query_groups [] known = ret (ok known)
  query_groups ((since, names) ∷ rest) known = do
    answer ← ask o (get_stats names since)
    elim answer [
      | ok results ↦ query_groups rest (insert_stats results known)
      | err e ↦ ret (err (usage e))
    ]

  -- What follows the check that there are senders.
  unfoldable pub list_configured :
      (Groups → Groups) → List SenderConfig → Exec (Result (List SenderSnapshot) ListSendersError)
  list_configured order configs = do
    now ← ask o now_ms
    known ← query_groups (order (group_configs now configs [])) []
    elim known [ ok stats ↦ ret (ok (snapshots stats configs)) | err e ↦ ret (err e) ]

  unfoldable pub execute :
      (Groups → Groups) → List SenderConfig → Exec (Result (List SenderSnapshot) ListSendersError)
  execute order [] = ret (ok [])
  execute order (c ∷ cs) = list_configured order (c ∷ cs)
