-- ===== src/Pipeline/Undelivered.antt =====
-- What processing and the worker (process_queued_email.rs, worker.rs) do beside sending.
use catapulte.Common.{
  ℕ, suc, String, List, [], ◌∷◌, ◌++◌, ◌≡◌, ◌∙◌, refl, ap, Option, Result, ok, err, Result-elim,
  Bool-cases, inl, inr,
}
use catapulte.Entity.{AttachmentRef, BlobRef, EmailId, Envelope, ResolvedAttachment}
use catapulte.Entity.Body.{RenderedBody}
use catapulte.Entity.LifecycleEvent.{sending}
use catapulte.Entity.Sender.{SenderName}
use catapulte.Port.Types.{AckToken, OutboundEmail, SendError}
use catapulte.Port.Call.{
  After, Exec, History, Oracle, ack, delete_blob, get, interpolate, nack, publish, render, resolve,
  set_attachments,
}
use catapulte.Port.Rules.{After-try}
use catapulte.Port.Trace.{Counted, accepted}
use catapulte.Processing.{
  ProcessQueuedEmailError, read_blob, resolved_attachment, resolve_attachments, outbound_email,
  send_rendered, send_result, execute,
}
use catapulte.Worker.{backoff, clean_up, on_delivered, on_error, process_one, is_terminal}

module _ (o : Oracle) where
  -- No transport has accepted anything since `start`.
  abbrev Unsent : {A : Type 0} → History → A → History → Type 0
  Unsent start _ h = accepted o h ≡ accepted o start

  read_blob-Unsent : (blob : BlobRef) (h : History) → After (Unsent h) h (read_blob o blob)
  unfolding read_blob
  read_blob-Unsent blob h =
      Result-elim (After (Unsent h) (get blob ∷ h)) (o h (get blob)) _ _
        (λ reader _.
          Result-elim (After (Unsent h) (get blob ∷ h)) reader _ _ (λ _ _. refl) (λ _ _. refl))
        (λ _ _. refl)

  resolve_attachments-Unsent :
      (atts : List AttachmentRef) (before : List ResolvedAttachment) (h : History)
      → After (Unsent h) h (resolve_attachments o atts before)
  unfolding resolve_attachments
  resolve_attachments-Unsent [] before h = refl
  resolve_attachments-Unsent (att ∷ rest) before h =
      After-try (Unsent h) (Unsent h) (read_blob o att.blob) _ _ h (read_blob-Unsent att.blob h)
        (λ bytes k u.
          resolve_attachments-Unsent rest (before ++ resolved_attachment att bytes ∷ []) k ∙ u)
        (λ e k u. u)

  Counted-moved :
      {A E : Type 0} (start k h : History) (r : Result A E)
      → accepted o k ≡ accepted o start
      → Counted o k r h
      → Counted o start r h
  Counted-moved start k h (ok a) p c = c ∙ ap (λ n. suc n) p
  Counted-moved start k h (err e) p c = c ∙ p

  send_result-Counted :
      (start h : History) (r : Result SenderName SendError)
      → Counted o start r h
      → After (Counted o start) h (send_result r)
  unfolding send_result
  send_result-Counted start h (ok name) c = c
  send_result-Counted start h (err e) c = c

  module _ (send_email : OutboundEmail → Exec (Result SenderName SendError))
      (counts : (out : OutboundEmail) (k : History) → After (Counted o k) k (send_email out)) where
    send_rendered-Counted :
        (env : Envelope) (body : RenderedBody) (h : History)
        → After (Counted o h) h (send_rendered o send_email env body)
    unfolding send_rendered
    send_rendered-Counted env body h =
        After-try (Counted o h) (Unsent h) (resolve_attachments o env.attachments []) _ _ h
          (resolve_attachments-Unsent env.attachments [] h)
          (λ contents k u.
            let out = outbound_email env body contents in
            let run = send_email out k in
            send_result-Counted h run.1 run.0 (Counted-moved h k run.1 run.0 u (counts out k)))
          (λ e k u. u)

    pub execute-Counted :
        (env : Envelope) (h : History) → After (Counted o h) h (execute o send_email env)
    unfolding execute
    execute-Counted env h =
        let h₁ = resolve env.body ∷ h in
        Result-elim (After (Counted o h) h₁) (o h (resolve env.body)) _ _
          (λ resolved _.
            let h₂ = interpolate resolved env.variables ∷ h₁ in
            Result-elim (After (Counted o h) h₂) (o h₁ (interpolate resolved env.variables)) _ _
              (λ interpolated _.
                Result-elim (After (Counted o h) (render interpolated ∷ h₂))
                  (o h₂ (render interpolated)) _ _
                  (λ body _. send_rendered-Counted env body (render interpolated ∷ h₂))
                  (λ _ _. refl))
              (λ _ _. refl))
          (λ _ _. refl)

  clean_up-Unsent : (atts : List AttachmentRef) (h : History) → After (Unsent h) h (clean_up o atts)
  unfolding clean_up
  clean_up-Unsent [] h = refl
  clean_up-Unsent (a ∷ rest) h = clean_up-Unsent rest (delete_blob a.blob ∷ h)

  on_delivered-Unsent :
      (id : EmailId) (cid : Option String) (atts : List AttachmentRef) (token : AckToken)
      (name : SenderName) (h : History)
      → After (Unsent h) h (on_delivered o id cid atts token name)
  unfolding on_delivered
  on_delivered-Unsent id cid atts token name h =
      Result-elim (After (Unsent h) (ack token ∷ h)) (o h (ack token)) _ _
        (λ _ _. clean_up-Unsent atts (set_attachments id [] ∷ ack token ∷ h)) (λ _ _. refl)

  module _ (reason : ProcessQueuedEmailError → String) where
    on_error-Unsent :
        (id : EmailId) (attempt : ℕ) (cid : Option String) (token : AckToken)
        (e : ProcessQueuedEmailError) (h : History)
        → After (Unsent h) h (on_error o reason id attempt cid token e)
    unfolding on_error
    on_error-Unsent id attempt cid token e h = elim (Bool-cases (is_terminal e attempt)) [
      | inl over ↦
          rw (over, on_error)
            (Result-elim (After (Unsent h) (ack token ∷ h)) (o h (ack token)) _ _ (λ _ _. refl)
              (λ _ _. refl))
      | inr again ↦
          rw (again, on_error)
            (Result-elim (After (Unsent h) (nack token (backoff attempt) ∷ h))
              (o h (nack token (backoff attempt))) _ _ (λ _ _. refl) (λ _ _. refl))
    ]

    -- What the worker adds to the count of its use case.
    pub process_one-Counted :
        (process : Envelope → Exec (Result SenderName ProcessQueuedEmailError)) (id : EmailId)
        (env : Envelope) (attempt : ℕ) (token : AckToken) (start : History)
        → ((h : History) → After (Counted o h) h (process env))
        → Counted o start
            (process env (publish (sending id attempt env.correlation_id) ∷ start)).0
            (process_one o reason process id env attempt token start).1
    unfolding process_one
    process_one-Counted process id env attempt token start counts =
        let first = publish (sending id attempt env.correlation_id) ∷ start in
        branch (process env first).0 (process env first).1 (counts first)
      where
        branch :
            (r : Result SenderName ProcessQueuedEmailError) (k : History)
            → Counted o start r k
            → After {A = Unit {0}}
                (λ _ h. Counted o start r h)
                k
                (elim r [
                  | ok name ↦ on_delivered o id env.correlation_id env.attachments token name
                  | err e ↦ on_error o reason id attempt env.correlation_id token e
                ])
        branch (ok name) k c =
            on_delivered-Unsent id env.correlation_id env.attachments token name k ∙ c
        branch (err e) k c = on_error-Unsent id attempt env.correlation_id token e k ∙ c
