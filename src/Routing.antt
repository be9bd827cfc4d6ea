-- ===== src/Routing.antt =====
-- domain/src/service/routed_email_sender.rs: which sender delivers an email. Tracing is left out.
-- The order in which a `HashMap` yields its entries is unspecified: it is the parameter `order`.
pub mod Domain
pub mod Order
pub mod Passes
pub mod Parts
pub mod Send
pub mod Total
use catapulte.Common.{
  ℕ, String, List, [], ◌∷◌, ◌++◌, ◌≡◌, Bool, true, false, Option, none, some, Result, ok, err,
  filter, leb, str_eq, if◌then◌else◌,
}
use catapulte.Common.Int.{ℤ, eqb_ℤ}
use catapulte.Entity.{AnyError}
use catapulte.Entity.Sender.{SenderName, SenderQuota, since_ms}
use catapulte.Port.Types.{
  OutboundEmail, SendError, send, no_matching_route, SenderStats, SenderUsageError,
}
use catapulte.Port.Call.{
  Call, Exec, Oracle, Transport, ask, ret, ◌>>=◌, ◌>>◌, deliver, get_stats, now_ms,
}
use Domain.{normalize_domain, sender_domain}

pub data RoutedEmailSenderError : Type 0 where
  empty_routes : RoutedEmailSenderError

pub record SenderRoute : Type 0 where
  pub name : SenderName
  pub priority : ℕ
  pub quota : Option SenderQuota
  pub match_sender_domain : Option String
  pub transport : Transport

unfoldable pub normalize_route : SenderRoute → SenderRoute
normalize_route r = elim r.match_sender_domain [
  | some d ↦ record r { match_sender_domain = some (normalize_domain d) }
  | none ↦ r
]

-- `slice::sort_by_key` by the priority, which is stable.
unfoldable pub insert_by_priority : SenderRoute → List SenderRoute → List SenderRoute
insert_by_priority r [] = r ∷ []
insert_by_priority r (x ∷ xs) =
    if leb r.priority x.priority then r ∷ x ∷ xs else x ∷ insert_by_priority r xs

unfoldable pub sort_by_priority : List SenderRoute → List SenderRoute
unfolding insert_by_priority
sort_by_priority [] = []
sort_by_priority (r ∷ rs) = insert_by_priority r (sort_by_priority rs)

unfoldable pub normalize_routes : List SenderRoute → List SenderRoute
unfolding normalize_route
normalize_routes [] = []
normalize_routes (r ∷ rs) = normalize_route r ∷ normalize_routes rs

-- `RoutedEmailSender::new`, which returns the routes that the sender keeps.
unfoldable pub new : List SenderRoute → Result (List SenderRoute) RoutedEmailSenderError
new [] = err empty_routes
new (r ∷ rs) = ok (sort_by_priority (normalize_routes (r ∷ rs)))

abbrev pub matches_domain : String → SenderRoute → Bool
matches_domain domain r = elim r.match_sender_domain [ some d ↦ str_eq d domain | none ↦ false ]

abbrev pub is_catch_all : SenderRoute → Bool
is_catch_all r = elim r.match_sender_domain [ some _ ↦ false | none ↦ true ]

unfoldable pub candidates : String → List SenderRoute → List SenderRoute
candidates domain routes = filter (matches_domain domain) routes ++ filter is_catch_all routes

-- The names to ask for, by the start of their quota window: an association list for the `HashMap`.
abbrev pub Groups : Type 0
Groups = List (ℤ × List SenderName)

-- `entry(since_ms).or_default().push(name)`
unfoldable pub push_name : ℤ → SenderName → Groups → Groups
push_name since name [] = (since, name ∷ []) ∷ []
push_name since name ((s, names) ∷ rest) =
    if eqb_ℤ s since then (s, names ++ name ∷ []) ∷ rest else (s, names) ∷ push_name since name rest

unfoldable pub group_names : ℤ → List SenderRoute → Groups → Groups
unfolding push_name
group_names now [] groups = groups
group_names now (r ∷ rs) groups =
    group_names now rs
      (elim r.quota [ some q ↦ push_name (since_ms q.range now) r.name groups | none ↦ groups ])

-- What is known of the emails sent: an entry in front hides those of its name behind it, as
-- `HashMap::insert` replaces a value.
abbrev pub SentMap : Type 0
SentMap = List (SenderName × ℕ)

unfoldable pub record_stats : List SenderStats → SentMap → SentMap
record_stats [] sent = sent
record_stats (s ∷ rest) sent = record_stats rest ((s.name, s.sent_in_range) ∷ sent)

-- `sent_map.get(name).copied().unwrap_or(0)`
unfoldable pub sent_of : SenderName → SentMap → ℕ
sent_of name [] = 0
sent_of name ((n, sent) ∷ rest) = if str_eq n.as_str name.as_str then sent else sent_of name rest

unfoldable pub over_quota : SentMap → SenderRoute → Bool
unfolding sent_of
over_quota sent r = elim r.quota [ some q ↦ leb q.count (sent_of r.name sent) | none ↦ false ]

-- A pass returns the name of the sender that delivered, or the last error, if there was an attempt.
abbrev pub PassResult : Type 0
PassResult = Result SenderName (Option SendError)

-- `Err(last_err.unwrap_or_else(|| unreachable!(..)))`, with `none` for the panic.
unfoldable pub second_result : Option SendError → Exec (Option (Result SenderName SendError))
second_result none = ret none
second_result (some e) = ret (some (err e))

-- The `match` on the answer of `get_stats`: an error is logged and leaves the map as it is.
unfoldable pub merge_answer : Result (List SenderStats) SenderUsageError → SentMap → SentMap
unfolding record_stats
merge_answer (ok stats) sent = record_stats stats sent
merge_answer (err _) sent = sent

module _ (o : Oracle) where
  -- The queries of the usage port.
  unfoldable pub query_usage : Groups → SentMap → Exec SentMap
  query_usage [] sent = ret sent
  query_usage ((since, names) ∷ rest) sent = do
    answer ← ask o (get_stats names since)
    query_usage rest (merge_answer answer sent)

  -- A `for` loop over the candidates; `skip` is the test before its `continue`.
  unfoldable pub deliver_pass :
      (SenderRoute → Bool) → OutboundEmail → List SenderRoute → Option SendError → Exec PassResult
  deliver_pass skip email [] last = ret (err last)
  deliver_pass skip email (r ∷ rest) last = elim (skip r) [
    | true ↦ deliver_pass skip email rest last
    | false ↦ do
      result ← ask o (deliver r.transport email)
      elim result [
        | ok _ ↦ ret (ok r.name)
        | err e ↦ deliver_pass skip email rest (some (send r.name e))
      ]
  ]

  -- The second pass, over all candidates.
  unfoldable pub bypass_quota :
      OutboundEmail → List SenderRoute → Exec (Option (Result SenderName SendError))
  bypass_quota email cands = do
    second ← deliver_pass (λ _. false) email cands none
    elim second [ ok name ↦ ret (some (ok name)) | err final ↦ second_result final ]

  -- What follows the first pass: its error is returned if there was an attempt.
  unfoldable pub first_result :
      OutboundEmail
      → List SenderRoute
      → Option SendError
      → Exec (Option (Result SenderName SendError))
  first_result email cands none = bypass_quota email cands
  first_result email cands (some e) = ret (some (err e))

  -- Both passes over the candidates.
  unfoldable pub send_through :
      SentMap → OutboundEmail → List SenderRoute → Exec (Option (Result SenderName SendError))
  send_through sent email cands = do
    first ← deliver_pass (over_quota sent) email cands none
    elim first [ ok name ↦ ret (some (ok name)) | err last ↦ first_result email cands last ]

  -- What follows the check that there are candidates.
  unfoldable pub send_to :
      (Groups → Groups)
      → OutboundEmail
      → List SenderRoute
      → Exec (Option (Result SenderName SendError))
  send_to order email cands = do
    now ← ask o now_ms
    sent ← query_usage (order (group_names now cands [])) []
    send_through sent email cands

  -- `RoutedEmailSender::send` over the routes that `new` returned.
  unfoldable pub send_email :
      (Groups → Groups)
      → List SenderRoute
      → OutboundEmail
      → Exec (Option (Result SenderName SendError))
  send_email order routes email =
      let domain = sender_domain email.sender in
      elim (candidates domain routes) [
        | [] ↦ ret (some (err (no_matching_route domain)))
        | r ∷ rest ↦ send_to order email (r ∷ rest)
      ]
