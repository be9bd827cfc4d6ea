-- ===== src/Pipeline/Quietness.antt =====
-- The calls that sending (routed_email_sender.rs) makes.
use catapulte.Common.{
  List, [], ◌∷◌, refl, Bool, false, Option, none, some, Result, err, Result-elim, Bool-cases, inl,
  inr,
}
use catapulte.Entity.Sender.{SenderName}
use catapulte.Port.Types.{OutboundEmail, SendError, no_matching_route, send}
use catapulte.Port.Call.{After, History, Oracle, ret, deliver, get_stats, now_ms}
use catapulte.Port.Rules.{After-try}
use catapulte.Port.Trace.{Quiet, Quiet-refl, Quiet-trans}
use catapulte.Routing.{
  Groups, SenderRoute, SentMap, candidates, group_names, merge_answer, over_quota, second_result,
  query_usage, deliver_pass, bypass_quota, first_result, send_through, send_to, send_email,
}
use catapulte.Routing.Domain.{sender_domain}

deliver-Quiet : (t : _) (email : OutboundEmail) (h : History) → Quiet h (deliver t email ∷ h)
deliver-Quiet t email h = record { settled = refl; events = refl; blobs = refl; rows = refl }

module _ (o : Oracle) where
  query_usage-Quiet :
      (groups : Groups) (sent : SentMap) (h : History) → Quiet h (query_usage o groups sent h).1
  unfolding query_usage
  query_usage-Quiet [] sent h = Quiet-refl h
  query_usage-Quiet ((since, names) ∷ rest) sent h =
      let asked = get_stats names since ∷ h in
      Quiet-trans (record { settled = refl; events = refl; blobs = refl; rows = refl })
        (query_usage-Quiet rest (merge_answer (o h (get_stats names since)) sent) asked)

  deliver_pass-Quiet :
      (skip : SenderRoute → Bool) (email : OutboundEmail) (cands : List SenderRoute)
      (last : Option SendError) (h : History)
      → After (λ _ k. Quiet h k) h (deliver_pass o skip email cands last)
  unfolding deliver_pass
  deliver_pass-Quiet skip email [] last h = Quiet-refl h
  deliver_pass-Quiet skip email (r ∷ rest) last h = elim (Bool-cases (skip r)) [
    | inl e ↦ rw (e, deliver_pass) (deliver_pass-Quiet skip email rest last h)
    | inr e ↦
        rw (e, deliver_pass)
          (let asked = deliver r.transport email ∷ h in
            Result-elim (After (λ _ k. Quiet h k) asked) (o h (deliver r.transport email)) _ _
              (λ _ _. deliver-Quiet r.transport email h)
              (λ x _.
                Quiet-trans (deliver-Quiet r.transport email h)
                  (deliver_pass-Quiet skip email rest (some (send r.name x)) asked)))
  ]

  second_result-Quiet : (e : Option SendError) (h : History) → Quiet h (second_result e h).1
  unfolding second_result
  second_result-Quiet none h = Quiet-refl h
  second_result-Quiet (some e) h = Quiet-refl h

  bypass_quota-Quiet :
      (email : OutboundEmail) (cands : List SenderRoute) (h : History)
      → After (λ _ k. Quiet h k) h (bypass_quota o email cands)
  unfolding bypass_quota
  bypass_quota-Quiet email cands h =
      After-try (λ _ k. Quiet h k) (λ _ k. Quiet h k) (deliver_pass o (λ _. false) email cands none)
        _ _ h (deliver_pass-Quiet (λ _. false) email cands none h) (λ name k q. q)
        (λ e k q. Quiet-trans q (second_result-Quiet e k))

  first_result-Quiet :
      (email : OutboundEmail) (cands : List SenderRoute) (e : Option SendError) (h : History)
      → After (λ _ k. Quiet h k) h (first_result o email cands e)
  unfolding first_result
  first_result-Quiet email cands none h = bypass_quota-Quiet email cands h
  first_result-Quiet email cands (some e) h = Quiet-refl h

  send_through-Quiet :
      (sent : SentMap) (email : OutboundEmail) (cands : List SenderRoute) (h : History)
      → After (λ _ k. Quiet h k) h (send_through o sent email cands)
  unfolding send_through
  send_through-Quiet sent email cands h =
      After-try (λ _ k. Quiet h k) (λ _ k. Quiet h k)
        (deliver_pass o (over_quota sent) email cands none) _ _ h
        (deliver_pass-Quiet (over_quota sent) email cands none h) (λ name k q. q)
        (λ e k q. Quiet-trans q (first_result-Quiet email cands e k))

  send_to-Quiet :
      (order : Groups → Groups) (email : OutboundEmail) (cands : List SenderRoute) (h : History)
      → Quiet h (send_to o order email cands h).1
  unfolding send_to
  send_to-Quiet order email cands h =
      let groups = order (group_names (o h now_ms) cands []) in
      let asked = query_usage o groups [] (now_ms ∷ h) in
      Quiet-trans (record { settled = refl; events = refl; blobs = refl; rows = refl })
        (Quiet-trans (query_usage-Quiet groups [] (now_ms ∷ h))
          (send_through-Quiet asked.0 email cands asked.1))

  pub send_email-Quiet :
      (order : Groups → Groups) (routes : List SenderRoute) (email : OutboundEmail) (h : History)
      → Quiet h (send_email o order routes email h).1
  unfolding send_email
  send_email-Quiet order routes email h =
      by_candidates (candidates (sender_domain email.sender) routes)
    where
      by_candidates :
          (cands : List SenderRoute)
          → After {A = Option (Result SenderName SendError)}
              (λ _ k. Quiet h k)
              h
              (elim cands [
                | [] ↦ ret (some (err (no_matching_route (sender_domain email.sender))))
                | r ∷ rest ↦ send_to o order email (r ∷ rest)
              ])
      by_candidates [] = Quiet-refl h
      by_candidates (r ∷ rest) = send_to-Quiet order email (r ∷ rest) h
