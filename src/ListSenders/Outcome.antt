-- ===== src/ListSenders/Outcome.antt =====
-- What the listing returns, and what it asks.
use catapulte.Common.{List, [], ◌∷◌, ◌++◌, ◌≡◌, refl, ap, map, Result, ok, err, arith, Result-elim}
use catapulte.Common.Int.{ℤ}
use catapulte.Entity.Sender.{SenderConfig, SenderName}
use catapulte.Port.Types.{SenderStats}
use catapulte.Port.Call.{After, History, Oracle, get_stats, now_ms}
use catapulte.Port.Rules.{After-try}
use catapulte.Routing.{Groups}
use catapulte.ListSenders.{
  SenderSnapshot, ListSendersError, usage, group_configs, insert_stats, snapshot, snapshots,
  query_groups, list_configured, execute,
}

-- The queries of `groups`, one after the other, on top of what was called before.
abbrev pub ask_groups : Groups → History → History
ask_groups [] h = h
ask_groups ((since, names) ∷ rest) h = ask_groups rest (get_stats names since ∷ h)

config-snapshots :
    (known : List SenderStats) (cs : List SenderConfig)
    → map (λ s. s.config) (snapshots known cs) ≡ cs
unfolding snapshots snapshot
config-snapshots known [] = refl
config-snapshots known (c ∷ cs) = ground (arith, config-snapshots known cs)

module _ (o : Oracle) where
  abbrev Queried : Groups → History → Result (List SenderStats) ListSendersError → History → Type 0
  Queried groups start (ok known) h = h ≡ ask_groups groups start
  Queried groups start (err (usage e)) h =
      (before : Groups) × (since : ℤ) × (names : List SenderName) × (behind : Groups) × (groups
        ≡ before ++ (since, names) ∷ behind)
      × (h ≡ get_stats names since ∷ ask_groups before start)
      × (o (ask_groups before start) (get_stats names since) ≡ err e)

  Queried-step :
      (since : ℤ) (names : List SenderName) (rest : Groups) (start h : History)
      (r : Result (List SenderStats) ListSendersError)
      → Queried rest (get_stats names since ∷ start) r h
      → Queried ((since, names) ∷ rest) start r h
  Queried-step since names rest start h (ok known) q = q
  Queried-step since names rest start h (err (usage e)) (before, s, ns, behind, p, q, r) =
      ((since, names) ∷ before, s, ns, behind, ap (λ l. (since, names) ∷ l) p, q, r)

  query_groups-Queried :
      (groups : Groups) (known : List SenderStats) (start : History)
      → After (Queried groups start) start (query_groups o groups known)
  unfolding query_groups
  query_groups-Queried [] known start = refl
  query_groups-Queried ((since, names) ∷ rest) known start =
      let k = get_stats names since ∷ start in
      Result-elim (After (Queried ((since, names) ∷ rest) start) k)
        (o start (get_stats names since)) _ _
        (λ results _.
          let run = query_groups o rest (insert_stats results known) k in
          Queried-step since names rest start run.1 run.0
            (query_groups-Queried rest (insert_stats results known) k))
        (λ e failed. ([], since, names, rest, refl, refl, failed))

  -- The outcome of a listing of `configs`.
  abbrev pub Listed :
      (Groups → Groups)
      → List SenderConfig
      → History
      → Result (List SenderSnapshot) ListSendersError
      → History
      → Type 0
  Listed order [] start r h = (r ≡ ok []) × (h ≡ start)
  Listed order (c ∷ cs) start (ok snaps) h =
      (map (λ s. s.config) snaps ≡ c ∷ cs)
      × (h ≡ ask_groups (order (group_configs (o start now_ms) (c ∷ cs) [])) (now_ms ∷ start))
  Listed order (c ∷ cs) start (err (usage e)) h =
      (k : History) × (since : ℤ) × (names : List SenderName) × (h ≡ get_stats names since ∷ k)
      × (o k (get_stats names since) ≡ err e)

  list_configured-Listed :
      (order : Groups → Groups) (c : SenderConfig) (cs : List SenderConfig) (start : History)
      → After (Listed order (c ∷ cs) start) start (list_configured o order (c ∷ cs))
  unfolding list_configured
  list_configured-Listed order c cs start =
      let groups = order (group_configs (o start now_ms) (c ∷ cs) []) in
      After-try (Listed order (c ∷ cs) start) (Queried groups (now_ms ∷ start))
        (query_groups o groups []) _ _ (now_ms ∷ start)
        (query_groups-Queried groups [] (now_ms ∷ start))
        (λ known k asked. (config-snapshots known (c ∷ cs), asked))
        (λ e k failed. of_error e k failed)
    where
      of_error :
          (e : ListSendersError) (k : History)
          → Queried (order (group_configs (o start now_ms) (c ∷ cs) [])) (now_ms ∷ start) (err e) k
          → Listed order (c ∷ cs) start (err e) k
      of_error (usage e) k (before, s, ns, behind, p, q, r) =
          (ask_groups before (now_ms ∷ start), s, ns, q, r)

  -- The listing, on every branch. With no senders it returns none and asks nothing. A success has
  -- one snapshot for each configured sender, in their order, and has asked the clock and then each
  -- group of names exactly once. A failure of the usage port ends the listing at that query, and is
  -- returned.
  pub execute-Listed :
      (order : Groups → Groups) (configs : List SenderConfig) (start : History)
      → After (Listed order configs start) start (execute o order configs)
  unfolding execute
  execute-Listed order [] start = (refl, refl)
  execute-Listed order (c ∷ cs) start = list_configured-Listed order c cs start
