-- ===== src/Routing/Send.antt =====
-- `RoutedEmailSender::send` as a whole: the candidates, the usage port and the passes.
use catapulte.Common.{
  subst, ltb, String, List, [], ◌∷◌, ◌++◌, ◌≡◌, ◌∙◌, refl, ap, Bool, true, Option, none, some,
  Result, ok, err, arith, filter,
}
use catapulte.Common.Int.{ℤ}
use catapulte.Entity.Sender.{SenderName}
use catapulte.Port.Types.{OutboundEmail, SendError, no_matching_route, SenderUsageError}
use catapulte.Port.Call.{After, History, Oracle, ret, get_stats, now_ms}
use catapulte.Port.Trace.{attempts, accepted}
use catapulte.Routing.{
  SenderRoute, SentMap, Groups, matches_domain, is_catch_all, candidates, group_names, over_quota,
  sent_of, merge_answer, query_usage, deliver_pass, new, send_through, send_to, send_email,
}
use catapulte.Routing.Domain.{sender_domain}
use catapulte.Routing.Parts.{IsPart, filter-IsPart}
use catapulte.Routing.Passes.{
  SendOutcome, PassOutcome, deliver_pass-outcome, Exhausted, eligible, within, first_or_all,
  send_through-SendOutcome, Delivered-moved, Exhausted-moved,
}

-- The candidates of a domain, for the routes that a sender keeps of those it was given: first all
-- routes for just that domain and then all routes for no domain. Each part is sorted by priority,
-- and for each priority it has the given routes of that kind, normalized, in the order in which they
-- were given: none is missing, and none is added.
pub candidates-order :
    (domain : String) (given kept : List SenderRoute)
    → new given ≡ ok kept
    → (special : List SenderRoute) × (general : List SenderRoute) × (candidates domain kept
        ≡ special ++ general)
      × IsPart given (matches_domain domain) special
      × IsPart given is_catch_all general
unfolding candidates
candidates-order domain given kept made = (
  filter (matches_domain domain) kept,
  filter is_catch_all kept,
  refl,
  filter-IsPart given kept (matches_domain domain) made,
  filter-IsPart given kept is_catch_all made,
)

module _ (o : Oracle) where
  -- What the usage port has answered for the candidates, asked from the history `h` on.
  abbrev pub sent_at : (Groups → Groups) → List SenderRoute → History → SentMap
  sent_at order cands h =
      (query_usage o (order (group_names (o h now_ms) cands [])) [] (now_ms ∷ h)).0

  query_usage-silent :
      (groups : Groups) (sent : SentMap) (h : History)
      → let k = (query_usage o groups sent h).1 in
        (attempts k ≡ attempts h) × (accepted o k ≡ accepted o h)
  unfolding query_usage
  query_usage-silent [] sent h = (refl, refl)
  query_usage-silent ((since, names) ∷ rest) sent h =
      query_usage-silent rest _ (get_stats names since ∷ h)

  SendOutcome-moved :
      (rs : List SenderRoute) (start k h : History) (r : Option (Result SenderName SendError))
      → Exhausted o [] start k
      → SendOutcome o rs k r h
      → SendOutcome o rs start r h
  SendOutcome-moved rs start k h none x out = out
  SendOutcome-moved rs start k h (some (ok name)) x out = Delivered-moved o x out
  SendOutcome-moved [] start k h (some (err e)) x out = out
  SendOutcome-moved (r ∷ rs) start k h (some (err e)) x out =
      (Exhausted-moved o x out.0, out.1, out.2)

  send_to-SendOutcome :
      (order : Groups → Groups) (email : OutboundEmail) (r : SenderRoute) (rs : List SenderRoute)
      (h : History)
      → After
          (SendOutcome o (eligible (sent_at order (r ∷ rs) h) (r ∷ rs)) h)
          h
          (send_to o order email (r ∷ rs))
  unfolding send_to
  send_to-SendOutcome order email r rs h =
      let cands = r ∷ rs in
      let sent = sent_at order cands h in
      let groups = order (group_names (o h now_ms) cands []) in
      let k = (query_usage o groups [] (now_ms ∷ h)).1 in
      let silent = query_usage-silent groups [] (now_ms ∷ h) in
      let run = send_through o sent email cands k in
      SendOutcome-moved (eligible sent cands) h k run.1 run.0
        (record { asked = silent.0; undelivered = silent.1 })
        (send_through-SendOutcome o sent email r rs k)

  -- The outcome of `send` for its candidates: with none the error says so and nothing is called.
  abbrev pub SendSpec :
      (Groups → Groups)
      → String
      → List SenderRoute
      → History
      → Option (Result SenderName SendError)
      → History
      → Type 0
  SendSpec order domain [] start r h = (r ≡ some (err (no_matching_route domain))) × (h ≡ start)
  SendSpec order domain (c ∷ cs) start r h =
      SendOutcome o (eligible (sent_at order (c ∷ cs) start) (c ∷ cs)) start r h

  -- The whole of `send`. Without a candidate it returns `NoMatchingRoute` with the sender's domain,
  -- and calls nothing. Otherwise it never panics, asks the candidates that are within their quota
  -- by the answers of the usage port, or all if none is, in their order, until one accepts. A
  -- success is exactly one delivery, by the sender that is named; an error means no delivery, and
  -- names the last sender that was asked. This holds for every order of the usage queries.
  pub send_email-SendSpec :
      (order : Groups → Groups) (routes : List SenderRoute) (email : OutboundEmail) (h : History)
      → let domain = sender_domain email.sender in
        After
          (SendSpec order domain (candidates domain routes) h)
          h
          (send_email o order routes email)
  unfolding send_email
  send_email-SendSpec order routes email h = by_candidates (candidates domain routes)
    where
      domain : String
      domain = sender_domain email.sender

      by_candidates :
          (cands : List SenderRoute)
          → After (SendSpec order domain cands h) h (elim cands [
            | [] ↦ ret (some (err (no_matching_route domain)))
            | r ∷ rest ↦ send_to o order email (r ∷ rest)
          ])
      by_candidates [] = (refl, refl)
      by_candidates (r ∷ rs) = send_to-SendOutcome order email r rs h

  query_usage-unavailable :
      (groups : Groups) (sent : SentMap) (h : History)
      → ((k : History) (names : List SenderName) (since : ℤ)
          → (e : SenderUsageError) × (o k (get_stats names since) ≡ err e))
      → (query_usage o groups sent h).0 ≡ sent
  unfolding query_usage merge_answer
  query_usage-unavailable [] sent h down = refl
  query_usage-unavailable ((since, names) ∷ rest) sent h down =
      let k = get_stats names since ∷ h in
      ap (λ r. (query_usage o rest (merge_answer r sent) k).0) (down h names since).1
      ∙ query_usage-unavailable rest sent k down

  -- A quota that allows at least one email, or none at all.
  abbrev pub has_allowance : SenderRoute → Bool
  has_allowance r = elim r.quota [ none ↦ true | some q ↦ ltb 0 q.count ]

  within-unused : (rs : List SenderRoute) → within (over_quota []) rs ≡ filter has_allowance rs
  unfolding over_quota sent_of
  within-unused [] = refl
  within-unused (r ∷ rs) = ground (arith, within-unused rs)

  -- What the candidates are asked with the usage port down: the first pass asks those that have an
  -- allowance, and the sender as a whole asks no others, unless there are none.
  pub record FailsOpen (order : Groups → Groups) (email : OutboundEmail) (r : SenderRoute)
      (rs : List SenderRoute) (h : History) : Type 0 where
    pub first :
        let cands = r ∷ rs in
        let asked = query_usage o (order (group_names (o h now_ms) cands [])) [] (now_ms ∷ h) in
        After
          (PassOutcome o (filter has_allowance cands) none asked.1)
          asked.1
          (deliver_pass o (over_quota asked.0) email cands none)
    pub whole :
        let cands = r ∷ rs in
        After
          (SendOutcome o (first_or_all (filter has_allowance cands) cands) h)
          h
          (send_to o order email cands)

  -- If the usage port fails at every query, the first pass over the candidates asks just those whose
  -- quota is positive and those without a quota, in their order, until one accepts; each of them is
  -- eligible, whatever the others have, and one with a zero quota is not. The sender asks these and
  -- no others, or all candidates if there are none such: the service fails open.
  pub fail_open :
      (order : Groups → Groups) (email : OutboundEmail) (r : SenderRoute) (rs : List SenderRoute)
      (h : History)
      → ((k : History) (names : List SenderName) (since : ℤ)
          → (e : SenderUsageError) × (o k (get_stats names since) ≡ err e))
      → FailsOpen order email r rs h
  fail_open order email r rs h down =
      let cands = r ∷ rs in
      let groups = order (group_names (o h now_ms) cands []) in
      let asked = query_usage o groups [] (now_ms ∷ h) in
      let nothing : asked.0 ≡ [] = query_usage-unavailable groups [] (now_ms ∷ h) down in
      let open_to : within (over_quota asked.0) cands ≡ filter has_allowance cands =
        ap (λ s. within (over_quota s) cands) nothing ∙ within-unused cands in
      let run = deliver_pass o (over_quota asked.0) email cands none asked.1 in
      let sent = send_to o order email cands h in
      record {
        first =
            subst (λ l. PassOutcome o l none asked.1 run.0 run.1) open_to
              (deliver_pass-outcome o (over_quota asked.0) email cands none asked.1);
        whole =
            subst (λ l. SendOutcome o (first_or_all l cands) h sent.0 sent.1) open_to
              (send_to-SendOutcome order email r rs h);
      }
