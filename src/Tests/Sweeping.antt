-- ===== src/Tests/Sweeping.antt =====
-- A listing of two senders, and a sweep of a store with two keys.
use catapulte.Common.{◌≤◌, List, [], ◌∷◌, ◌≡◌, ok, none, some}
use catapulte.Common.Int.{pos}
use catapulte.Entity.Sender.{SenderConfig, daily}
use catapulte.Port.Call.{After, Oracle, list_keys_older_than, list_all_attachment_blobs}
use catapulte.ListSenders
use catapulte.ListSenders.{group_configs}
use catapulte.ListSenders.Grouping.{asked_for, query_count, config_count, group_configs_lem}
use catapulte.ListSenders.Outcome.{Listed, execute-Listed}
use catapulte.Gc.{sweep_once}
use catapulte.Gc.Sweep.{SweepOutcome, sweep_once-outcome}
use catapulte.Tests.Ports.{blob, serving}
use catapulte.Tests.Delivery.{keep_order}

abbrev configs : List SenderConfig
configs =
    record {
      name = record { as_str = "main" };
      quota = some (record { count = 10; range = daily });
      match_sender_domain = none;
    }
    ∷ record { name = record { as_str = "bulk" }; quota = none; match_sender_domain = none }
    ∷ []

execute-Listed_example :
    After (Listed serving keep_order configs []) [] (ListSenders.execute serving keep_order configs)
execute-Listed_example = execute-Listed serving keep_order configs []

group_configs_lem_example :
    (query_count (pos 0) (group_configs (pos 1000) configs []) ≤ 1)
    × (asked_for (pos 0) (record { as_str = "bulk" }) (group_configs (pos 1000) configs [])
        ≡ config_count (pos 1000) (pos 0) (record { as_str = "bulk" }) configs)
group_configs_lem_example =
    group_configs_lem (pos 1000) (pos 0) (record { as_str = "bulk" }) configs

-- A store with two keys, one of them in use.
abbrev stored : Oracle
stored h (list_keys_older_than s) = ok ("k1" ∷ "k2" ∷ [])
stored h list_all_attachment_blobs = ok (blob ∷ [])
stored h c = serving h c

sweep_once-outcome_example : After (SweepOutcome stored "fs" 60 []) [] (sweep_once stored "fs" 60)
sweep_once-outcome_example = sweep_once-outcome stored "fs" 60 []
