-- ===== src/Worker/Handling.antt =====
-- What becomes of an email that a worker has taken: how its queue entry is settled, what is
-- published, and which blobs are deleted.
use catapulte.Common.{
  ℕ, ◌≤◌, ◌<◌, String, List, [], ◌∷◌, ◌≡◌, ◌⊎◌, inl, inr, refl, ap, Bool, true, false, ◌||◌, Option,
  Result, ok, err, arith, leb, Result-cases, Bool-cases,
}
use catapulte.Entity.{AttachmentRef, EmailId, Envelope}
use catapulte.Entity.LifecycleEvent.{LifecycleEvent, sending, sent}
use catapulte.Entity.Sender.{SenderName}
use catapulte.Port.Types.{AckToken}
use catapulte.Port.Call.{
  After, Exec, History, Oracle, ack, nack, delete_blob, publish, set_attachments,
}
use catapulte.Port.Trace.{acked, nacked, settlements, published, deleted, patches, Quiet}
use catapulte.Processing.{ProcessQueuedEmailError}
use catapulte.Worker.Settling.{HandledAs, HandledAs-moved, delete_all, delivered_plan, failure_plan}
use catapulte.Worker.{
  backoff, is_permanent, is_terminal, failed_event, retrying_event, clean_up, on_delivered,
  on_error, process_one,
}

terminal_because :
    (permanent : Bool) (attempt : ℕ)
    → (permanent || leb 3 attempt) ≡ true
    → (permanent ≡ true) ⊎ (3 ≤ attempt)
terminal_because true attempt h = inl refl
terminal_because false attempt h = inr (ground arith)

module _ (o : Oracle) where
  clean_up_lem :
      (atts : List AttachmentRef) (h : History)
      → let k = (clean_up o atts h).1 in
        (settlements k ≡ settlements h)
        × (published k ≡ published h)
        × (patches k ≡ patches h)
        × (deleted k ≡ delete_all atts (deleted h))
  unfolding clean_up
  clean_up_lem [] h = (refl, refl, refl, refl)
  clean_up_lem (a ∷ rest) h = clean_up_lem rest (delete_blob a.blob ∷ h)

  on_delivered-HandledAs :
      (id : EmailId) (cid : Option String) (atts : List AttachmentRef) (token : AckToken)
      (name : SenderName) (k : History)
      → After
          (λ _ h.
            HandledAs (delivered_plan id cid atts token name) (o k (ack token)) k (published k) h)
          k
          (on_delivered o id cid atts token name)
  unfolding on_delivered
  on_delivered-HandledAs id cid atts token name k = elim (Result-cases (o k (ack token))) [
    | inl (_, e) ↦
        let c = clean_up_lem atts (set_attachments id [] ∷ ack token ∷ k) in
        rw e (record { settled = c.0; told = (ap (λ l. sent id name cid ∷ l) c.1, c.2, c.3) })
    | inr (_, e) ↦ rw e (record { settled = refl; told = (refl, refl, refl) })
  ]

  module _ (reason : ProcessQueuedEmailError → String) where
    -- How a failure at `attempt`, after the history `k`, is handled: an error that no retry can
    -- mend, or the third attempt, ends the email; otherwise its entry comes back after the backoff.
    abbrev pub ErrorHandled :
        EmailId
        → ℕ
        → Option String
        → AckToken
        → ProcessQueuedEmailError
        → History
        → History
        → List LifecycleEvent
        → History
        → Type 0
    ErrorHandled id attempt cid token e k start events h =
        (((is_permanent e ≡ true) ⊎ (3 ≤ attempt))
          × HandledAs (failure_plan (acked token) (failed_event reason id attempt cid e))
              (o k (ack token)) start events h)
        ⊎ ((is_permanent e ≡ false)
            × (attempt < 3)
            × HandledAs
                (failure_plan (nacked token (backoff attempt))
                  (retrying_event reason id attempt cid e))
                (o k (nack token (backoff attempt))) start events h)

    on_error-ErrorHandled :
        (id : EmailId) (attempt : ℕ) (cid : Option String) (token : AckToken)
        (e : ProcessQueuedEmailError) (k : History)
        → After
            (λ _ h. ErrorHandled id attempt cid token e k k (published k) h)
            k
            (on_error o reason id attempt cid token e)
    unfolding on_error is_terminal
    on_error-ErrorHandled id attempt cid token e k =
        elim (Bool-cases (is_permanent e || leb 3 attempt)) [
          | inl over ↦
              rw (over, on_error)
                (inl (
                  terminal_because (is_permanent e) attempt over,
                  elim (Result-cases (o k (ack token))) [
                    | inl (_, a) ↦ rw a (record { settled = refl; told = (refl, refl, refl) })
                    | inr (_, a) ↦ rw a (record { settled = refl; told = (refl, refl, refl) })
                  ],
                ))
          | inr again ↦
              rw (again, on_error)
                (inr (
                  ground arith,
                  ground arith,
                  elim (Result-cases (o k (nack token (backoff attempt)))) [
                    | inl (_, a) ↦ rw a (record { settled = refl; told = (refl, refl, refl) })
                    | inr (_, a) ↦ rw a (record { settled = refl; told = (refl, refl, refl) })
                  ],
                ))
        ]

    ErrorHandled-moved :
        (id : EmailId) (attempt : ℕ) (cid : Option String) (token : AckToken)
        (e : ProcessQueuedEmailError) (event : LifecycleEvent) (start k h : History)
        → Quiet (publish event ∷ start) k
        → ErrorHandled id attempt cid token e k k (published k) h
        → ErrorHandled id attempt cid token e k start (event ∷ published start) h
    ErrorHandled-moved id attempt cid token e event start k h q (inl (a, x)) =
        inl (a, HandledAs-moved start k h _ _ event q x)
    ErrorHandled-moved id attempt cid token e event start k h q (inr (a, b, x)) =
        inr (a, b, HandledAs-moved start k h _ _ event q x)

    -- How the result of processing, which has left the history `k`, is handled.
    abbrev pub Handled :
        EmailId
        → Envelope
        → ℕ
        → AckToken
        → Result SenderName ProcessQueuedEmailError
        → History
        → History
        → List LifecycleEvent
        → History
        → Type 0
    Handled id env attempt token (ok name) k start events h =
        HandledAs (delivered_plan id env.correlation_id env.attachments token name)
          (o k (ack token)) start events h
    Handled id env attempt token (err e) k start events h =
        ErrorHandled id attempt env.correlation_id token e k start events h

    -- A worker settles the queue entry of an email exactly once, whatever happens. It publishes
    -- that it is sending. After a success it acknowledges the entry; if the queue accepts that, and
    -- only then, it takes the attachments off the row, deletes the blobs, all of them, and publishes
    -- the success. After an error no blob is deleted and no row is patched, so that a retry finds
    -- them: an error that no retry can mend, or the third attempt, is acknowledged and, if the queue
    -- accepts that, published as a failure; any other returns the entry after the backoff and, if the
    -- queue accepts that, is published as a retry. If the queue refuses the settlement nothing more
    -- is published, patched or deleted. The use case is assumed to settle, publish, patch and delete
    -- nothing itself.
    pub process_one-Handled :
        (process : Envelope → Exec (Result SenderName ProcessQueuedEmailError)) (id : EmailId)
        (env : Envelope) (attempt : ℕ) (token : AckToken) (start : History)
        → ((h : History) → Quiet h (process env h).1)
        → let sending_event = sending id attempt env.correlation_id in
          let processed = process env (publish sending_event ∷ start) in
          Handled id env attempt token processed.0 processed.1 start
            (sending_event ∷ published start)
            (process_one o reason process id env attempt token start).1
    unfolding process_one
    process_one-Handled process id env attempt token start quiet =
        branch (process env (publish sending_event ∷ start)).0
      where
        sending_event : LifecycleEvent
        sending_event = sending id attempt env.correlation_id

        k : History
        k = (process env (publish sending_event ∷ start)).1

        q : Quiet (publish sending_event ∷ start) k
        q = quiet (publish sending_event ∷ start)

        branch :
            (r : Result SenderName ProcessQueuedEmailError)
            → After
                (λ _ h. Handled id env attempt token r k start (sending_event ∷ published start) h)
                k
                (elim r [
                  | ok name ↦ on_delivered o id env.correlation_id env.attachments token name
                  | err e ↦ on_error o reason id attempt env.correlation_id token e
                ])
        branch (ok name) =
            HandledAs-moved start k _ _ _ sending_event q
              (on_delivered-HandledAs id env.correlation_id env.attachments token name k)
        branch (err e) =
            ErrorHandled-moved id attempt env.correlation_id token e sending_event start k _ q
              (on_error-ErrorHandled id attempt env.correlation_id token e k)
