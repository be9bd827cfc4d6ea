-- ===== src/Routing/Total.antt =====
-- The result of `RoutedEmailSender::send` without the case of a panic.
use catapulte.Common.{String, List, [], ◌∷◌, ◌≢◌, refl, ap, Option, none, some, Result, ok, err}
use catapulte.Entity.Sender.{SenderName}
use catapulte.Port.Types.{OutboundEmail, SendError}
use catapulte.Port.Call.{After, History, Oracle}
use catapulte.Port.Trace.{Counted, accepted}
use catapulte.Routing.{Groups, SenderRoute, candidates, send_email}
use catapulte.Routing.Domain.{sender_domain}
use catapulte.Routing.Passes.{SendOutcome}
use catapulte.Routing.Send.{SendSpec, send_email-SendSpec}

-- What an action that never panics returns.
abbrev pub from_some : {A : Type 0} (r : Option A) → r ≢ none → A
from_some (some a) h = a
from_some none h = absurd (h refl)

module _ (o : Oracle) (order : Groups → Groups) where
  -- The same of what `send` returns.
  abbrev Returned : History → Option (Result SenderName SendError) → History → Type 0
  Returned start none h = ⊥
  Returned start (some r) h = Counted o start r h

  of_outcome :
      (rs : List SenderRoute) (start h : History) (r : Option (Result SenderName SendError))
      → SendOutcome o rs start r h
      → Returned start r h
  of_outcome rs start h none x = x
  of_outcome rs start h (some (ok name)) d = d.once
  of_outcome [] start h (some (err e)) x = absurd x
  of_outcome (r ∷ rs) start h (some (err e)) x = x.0.undelivered

  of_spec :
      (domain : String) (cands : List SenderRoute) (start h : History)
      (r : Option (Result SenderName SendError))
      → SendSpec o order domain cands start r h
      → Returned start r h
  of_spec domain [] start h none s = absurd (cc s.0)
  of_spec domain [] start h (some (ok name)) s = absurd (cc s.0)
  of_spec domain [] start h (some (err e)) s = ap (accepted o) s.1
  of_spec domain (c ∷ cs) start h r s = of_outcome _ start h r s

  send_email-Returned :
      (routes : List SenderRoute) (email : OutboundEmail) (h : History)
      → After (Returned h) h (send_email o order routes email)
  send_email-Returned routes email h =
      let run = send_email o order routes email h in
      let domain = sender_domain email.sender in
      of_spec domain (candidates domain routes) h run.1 run.0
        (send_email-SendSpec o order routes email h)

  Returned-some :
      (start h : History) (r : Option (Result SenderName SendError)) → Returned start r h → r ≢ none
  Returned-some start h none x = absurd x
  Returned-some start h (some r) x = λ e. cc

  pub send_email-returns :
      (routes : List SenderRoute) (email : OutboundEmail) (h : History)
      → (send_email o order routes email h).0 ≢ none
  send_email-returns routes email h =
      let run = send_email o order routes email h in
      Returned-some h run.1 run.0 (send_email-Returned routes email h)

  from_some-Counted :
      (start h : History) (r : Option (Result SenderName SendError)) (total : r ≢ none)
      → Returned start r h
      → Counted o start (from_some r total) h
  from_some-Counted start h none total x = absurd x
  from_some-Counted start h (some r) total x = x

  pub send_email-Counted :
      (routes : List SenderRoute) (email : OutboundEmail) (h : History)
      → let run = send_email o order routes email h in
        Counted o h (from_some run.0 (send_email-returns routes email h)) run.1
  send_email-Counted routes email h =
      let run = send_email o order routes email h in
      from_some-Counted h run.1 run.0 (send_email-returns routes email h)
        (send_email-Returned routes email h)
