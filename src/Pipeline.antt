-- ===== src/Pipeline.antt =====
-- The parts composed as binary/src composes them: a worker handles an email from the queue by
-- processing it, and processing sends it through the configured routes.
pub mod Quietness
pub mod Undelivered
pub mod Deliveries
use catapulte.Common.{ℕ, String, List, Result}
use catapulte.Entity.{EmailId, Envelope}
use catapulte.Entity.Sender.{SenderName}
use catapulte.Port.Types.{AckToken, OutboundEmail, SendError}
use catapulte.Port.Call.{Exec, Oracle}
use catapulte.Processing
use catapulte.Processing.{ProcessQueuedEmailError}
use catapulte.Routing.{Groups, SenderRoute, send_email}
use catapulte.Routing.Total.{from_some, send_email-returns}
use catapulte.Worker.{process_one}

module _ (o : Oracle) (order : Groups → Groups) (routes : List SenderRoute) where
  -- `RoutedEmailSender::send`, with the result that it returns.
  unfoldable pub routed_send : OutboundEmail → Exec (Result SenderName SendError)
  routed_send email h =
      let run = send_email o order routes email h in
      (from_some run.0 (send_email-returns o order routes email h), run.1)

  unfoldable pub handle :
      (ProcessQueuedEmailError → String) → EmailId → Envelope → ℕ → AckToken → Exec (Unit {0})
  handle reason id env attempt token =
      process_one o reason (Processing.execute o routed_send) id env attempt token
