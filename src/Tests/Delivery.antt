-- ===== src/Tests/Delivery.antt =====
-- Routing, processing and the worker.
use catapulte.Common.{
  ℕ, String, List, [], ◌∷◌, ◌++◌, ◌≡◌, refl, ok, none, some, Result, Option, filter,
}
use catapulte.Entity.{AttachmentRef, EmailId, Envelope, to}
use catapulte.Entity.Body.{BodySource}
use catapulte.Entity.LifecycleEvent.{sending}
use catapulte.Entity.Sender.{SenderName, daily}
use catapulte.Port.Types.{OutboundEmail, SendError, AckToken}
use catapulte.Port.Call.{After, Exec, History, publish, deliver}
use catapulte.Port.Trace.{Quiet}
use catapulte.Routing.{
  sort_by_priority, SenderRoute, Groups, new, normalize_routes, candidates, matches_domain,
  is_catch_all, send_email,
}
use catapulte.Routing.Domain.{normalize_domain, sender_domain}
use catapulte.Routing.Order.{IsSorted, has_priority, new_lem}
use catapulte.Routing.Parts.{IsPart}
use catapulte.Routing.Send.{FailsOpen, candidates-order, SendSpec, send_email-SendSpec, fail_open}
use catapulte.Processing
use catapulte.Processing.{ProcessQueuedEmailError}
use catapulte.Processing.Outcome.{execute-Quiet}
use catapulte.Worker.{process_one}
use catapulte.Worker.Handling.{Handled, process_one-Handled}
use catapulte.Tests.Ports.{blob, plain, serving, no_smtp}

abbrev route : String → ℕ → Option String → ℕ → SenderRoute
route name priority domain transport = record {
  name = record { as_str = name };
  priority = priority;
  quota = some (record { count = 10; range = daily });
  match_sender_domain = domain;
  transport = transport;
}

abbrev given : List SenderRoute
given = route "bulk" 2 none 1 ∷ route "main" 1 none 2 ∷ route "acme" 3 (some "ACME.com.") 3 ∷ []

abbrev pub kept : List SenderRoute
kept = route "main" 1 none 2 ∷ route "bulk" 2 none 1 ∷ route "acme" 3 (some "acme.com") 3 ∷ []

new-given : new given ≡ ok kept
unfolding new sort_by_priority normalize_routes normalize_domain
new-given = refl

new_lem_example :
    IsSorted kept
    × ((p : ℕ) → filter (has_priority p) kept ≡ filter (has_priority p) (normalize_routes given))
new_lem_example = new_lem given kept new-given

candidates-order_example :
    (special : List SenderRoute) × (general : List SenderRoute) × (candidates "acme.com" kept
      ≡ special ++ general)
    × IsPart given (matches_domain "acme.com") special
    × IsPart given is_catch_all general
candidates-order_example = candidates-order "acme.com" given kept new-given

abbrev pub keep_order : Groups → Groups
keep_order groups = groups

abbrev email : OutboundEmail
email = record {
  sender = "jo@Acme.COM";
  subject = none;
  recipients = (to, "b@example.com") ∷ [];
  body = record { into_plain = plain };
  attachments = [];
}

send_email-SendSpec_example :
    After
      (SendSpec no_smtp keep_order
        (sender_domain "jo@Acme.COM")
        (candidates (sender_domain "jo@Acme.COM") kept)
        [])
      []
      (send_email no_smtp keep_order kept email)
send_email-SendSpec_example = send_email-SendSpec no_smtp keep_order kept email []

abbrev closed : SenderRoute
closed = record (route "closed" 1 none 4) { quota = some (record { count = 0; range = daily }) }

fail_open_example : FailsOpen no_smtp keep_order email closed kept []
fail_open_example = fail_open no_smtp keep_order email closed kept [] (λ k names since. (_, refl))

abbrev attached : AttachmentRef
attached = record {
  filename = "a.pdf";
  content_type = "application/pdf";
  size_bytes = 3;
  blob = blob;
}

abbrev pub envelope : Envelope
envelope = record {
  idempotency_key = none;
  correlation_id = none;
  subject = none;
  sender = "jo@acme.com";
  recipients = (to, "b@example.com") ∷ [];
  body = BodySource.plain plain;
  variables = "{}";
  attachments = attached ∷ [];
}

-- A sender with one transport.
abbrev direct : OutboundEmail → Exec (Result SenderName SendError)
direct out h = (ok (record { as_str = "main" }), deliver 1 out ∷ h)

direct-Quiet : (out : OutboundEmail) (k : History) → Quiet k (direct out k).1
direct-Quiet out k = record { settled = refl; events = refl; blobs = refl; rows = refl }

abbrev pub reason : ProcessQueuedEmailError → String
reason e = "failed"

abbrev pub token : AckToken
token = record { into_bytes = 1 ∷ [] }

abbrev pub id : EmailId
id = record { uuid = 7 }

process_one-Handled_example :
    let process = Processing.execute serving direct in
    let event = sending id 1 none in
    let processed = process envelope (publish event ∷ []) in
    Handled serving reason id envelope 1 token processed.0 processed.1 []
      (event ∷ [])
      (process_one serving reason process id envelope 1 token []).1
process_one-Handled_example =
    process_one-Handled serving reason (Processing.execute serving direct) id envelope 1 token []
      (execute-Quiet serving direct direct-Quiet envelope)
