-- ===== src/Pipeline/Deliveries.antt =====
-- How often one handling of an email delivers it, and when it comes back to the queue.
use catapulte.Common.{ℕ, suc, ◌<◌, String, List, ◌∷◌, ◌≡◌, ◌⊎◌, inl, inr, Result, ok, err}
use catapulte.Entity.{EmailId, Envelope}
use catapulte.Entity.LifecycleEvent.{LifecycleEvent, sending}
use catapulte.Entity.Sender.{SenderName}
use catapulte.Port.Types.{AckToken, OutboundEmail}
use catapulte.Port.Call.{After, History, Oracle, publish}
use catapulte.Port.Trace.{Counted, Quiet, accepted, acked, nacked, published, settlements}
use catapulte.Processing
use catapulte.Processing.{ProcessQueuedEmailError}
use catapulte.Processing.Outcome.{execute-Quiet}
use catapulte.Routing.{Groups, SenderRoute}
use catapulte.Routing.Total.{send_email-Counted}
use catapulte.Worker.{backoff, process_one}
use catapulte.Worker.Handling.{Handled, process_one-Handled}
use catapulte.Pipeline.{handle, routed_send}
use catapulte.Pipeline.Quietness.{send_email-Quiet}
use catapulte.Pipeline.Undelivered.{execute-Counted, process_one-Counted}

module _ (o : Oracle) where
  -- Since `start` the email of the entry `token` was delivered once and its entry acknowledged; or
  -- it was not delivered, and its entry was acknowledged or, before the third attempt, returned.
  abbrev pub HandledOnce : ℕ → AckToken → History → History → Type 0
  HandledOnce attempt token start h =
      ((accepted o h ≡ suc (accepted o start)) × (settlements h ≡ acked token ∷ settlements start))
      ⊎ ((accepted o h ≡ accepted o start)
          × ((settlements h ≡ acked token ∷ settlements start)
              ⊎ ((attempt < 3)
                  × (settlements h ≡ nacked token (backoff attempt) ∷ settlements start))))

  module _ (order : Groups → Groups) (routes : List SenderRoute)
      (reason : ProcessQueuedEmailError → String) where
    of_result :
        (id : EmailId) (env : Envelope) (attempt : ℕ) (token : AckToken) (k : History)
        (events : List LifecycleEvent) (start h : History)
        (r : Result SenderName ProcessQueuedEmailError)
        → Handled o reason id env attempt token r k start events h
        → Counted o start r h
        → HandledOnce attempt token start h
    of_result id env attempt token k events start h (ok name) handled counted =
        inl (counted, handled.settled)
    of_result id env attempt token k events start h (err e) (inl (why, handled)) counted =
        inr (counted, inl handled.settled)
    of_result id env attempt token k events start h (err e) (inr (a, few, handled)) counted =
        inr (counted, inr (few, handled.settled))

    routed_send-Quiet :
        (out : OutboundEmail) (k : History) → Quiet k (routed_send o order routes out k).1
    unfolding routed_send
    routed_send-Quiet out k = send_email-Quiet o order routes out k

    routed_send-Counted :
        (out : OutboundEmail) (k : History) → After (Counted o k) k (routed_send o order routes out)
    unfolding routed_send
    routed_send-Counted out k = send_email-Counted o order routes out k

    -- Handling an email from the queue, with the worker, the processing and the routes together:
    -- whatever the ports do, at most one transport accepts the email, and the queue is asked to settle
    -- the entry exactly once. If a transport accepted, it is asked to acknowledge it. It is asked to
    -- return it only if no transport accepted the email, and only before the third attempt.
    pub handle-HandledOnce :
        (id : EmailId) (env : Envelope) (attempt : ℕ) (token : AckToken) (start : History)
        → HandledOnce attempt token start
            (handle o order routes reason id env attempt token start).1
    unfolding handle
    handle-HandledOnce id env attempt token start =
        let send = routed_send o order routes in
        let process = Processing.execute o send in
        let event = sending id attempt env.correlation_id in
        let processed = process env (publish event ∷ start) in
        of_result id env attempt token processed.1 (event ∷ published start) start
          (process_one o reason process id env attempt token start).1 processed.0
          (process_one-Handled o reason process id env attempt token start
            (execute-Quiet o send routed_send-Quiet env))
          (process_one-Counted o reason process id env attempt token start
            (execute-Counted o send routed_send-Counted env))
