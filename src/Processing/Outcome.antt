-- ===== src/Processing/Outcome.antt =====
-- The whole of `ProcessQueuedEmailService::execute` in domain/src/use_case/process_queued_email.rs.
use catapulte.Common.{List, [], ◌∷◌, ◌≡◌, refl, subst, sym, Result, ok, err, Result-elim}
use catapulte.Entity.{Envelope, ResolvedAttachment}
use catapulte.Entity.Body.{InterpolatedBody, RenderedBody, ResolvedBody}
use catapulte.Entity.Sender.{SenderName}
use catapulte.Port.Types.{OutboundEmail, SendError}
use catapulte.Port.Call.{After, Exec, History, Oracle, interpolate, render, resolve}
use catapulte.Port.Rules.{After-try}
use catapulte.Port.Trace.{Quiet, Quiet-trans}
use catapulte.Processing.{
  ProcessQueuedEmailError, resolve_failed, interpolate_failed, render_failed, send_failed,
  attachment_resolve, outbound_email, resolve_attachments, send_result, send_rendered, execute,
}
use catapulte.Processing.Content.{
  Silent, Silent-trans, IsRead, IsUnreadable, IsRead-Silent, IsUnreadable-Silent, ContentOutcome,
  resolve_attachments-outcome,
}

module _ (o : Oracle) where
  -- The body of `env` went through the three steps from `start` on.
  pub record IsRendered (env : Envelope) (start : History) : Type 0 where
    pub resolved : ResolvedBody
    pub interpolated : InterpolatedBody
    pub body : RenderedBody
    pub resolves : o start (resolve env.body) ≡ ok resolved
    pub interpolates :
        o (resolve env.body ∷ start) (interpolate resolved env.variables) ≡ ok interpolated
    pub renders :
        o (interpolate resolved env.variables ∷ resolve env.body ∷ start) (render interpolated)
        ≡ ok body

  -- The history after the three steps.
  abbrev pub rendered_at : (env : Envelope) (start : History) → IsRendered env start → History
  rendered_at env start w =
      render w.interpolated ∷ interpolate w.resolved env.variables ∷ resolve env.body ∷ start

  -- The email `out` was prepared from `env`: its body went through the three steps, and its
  -- attachments are those of the envelope, in their order, with the bytes that were read.
  pub record IsPrepared (env : Envelope) (start k : History) (out : OutboundEmail) : Type 0 where
    pub rendered : IsRendered env start
    pub contents : List ResolvedAttachment
    pub read : IsRead o env.attachments contents (rendered_at env start rendered) k
    pub outbound : out ≡ outbound_email env rendered.body contents

  rendered-Silent :
      (env : Envelope) (start : History) (w : IsRendered env start)
      → Silent start (rendered_at env start w)
  rendered-Silent env start w = record {
    unsent = refl;
    quiet = record { settled = refl; events = refl; blobs = refl; rows = refl };
  }

  IsPrepared-Silent :
      (env : Envelope) (start k : History) (out : OutboundEmail)
      → IsPrepared env start k out
      → Silent start k
  IsPrepared-Silent env start k out p =
      Silent-trans (rendered-Silent env start p.rendered)
        (IsRead-Silent o env.attachments p.contents (rendered_at env start p.rendered) k p.read)

  module _ (send_email : OutboundEmail → Exec (Result SenderName SendError)) where
    -- By the result: what the port that failed has answered, or what the sender was handed.
    abbrev pub Processed :
        Envelope → History → Result SenderName ProcessQueuedEmailError → History → Type 0
    Processed env start (ok name) h =
        (k : History) × (out : OutboundEmail) × IsPrepared env start k out
        × (send_email out k ≡ (ok name, h))
    Processed env start (err (send_failed e)) h =
        (k : History) × (out : OutboundEmail) × IsPrepared env start k out
        × (send_email out k ≡ (err e, h))
    Processed env start (err (resolve_failed e)) h =
        (o start (resolve env.body) ≡ err e) × (h ≡ resolve env.body ∷ start)
    Processed env start (err (interpolate_failed e)) h =
        (resolved : ResolvedBody) × (o start (resolve env.body) ≡ ok resolved)
        × (o (resolve env.body ∷ start) (interpolate resolved env.variables) ≡ err e)
        × (h ≡ interpolate resolved env.variables ∷ resolve env.body ∷ start)
    Processed env start (err (render_failed e)) h =
        (resolved : ResolvedBody) × (interpolated : InterpolatedBody) × (o start (resolve env.body)
          ≡ ok resolved)
        × (o (resolve env.body ∷ start) (interpolate resolved env.variables) ≡ ok interpolated)
        × (o (interpolate resolved env.variables ∷ resolve env.body ∷ start) (render interpolated)
            ≡ err e)
        × (h ≡ render interpolated ∷ interpolate resolved env.variables ∷ resolve env.body ∷ start)
    Processed env start (err (attachment_resolve cause)) h =
        (w : IsRendered env start) × IsUnreadable o env.attachments cause (rendered_at env start w)
          h

    sent-Processed :
        {env : Envelope} {start k : History} {out : OutboundEmail} (r : Result SenderName SendError)
        (h : History)
        → IsPrepared env start k out
        → send_email out k ≡ (r, h)
        → After (Processed env start) h (send_result r)
    unfolding send_result
    sent-Processed {k = k} {out = out} (ok name) h p e = (k, out, p, e)
    sent-Processed {k = k} {out = out} (err x) h p e = (k, out, p, e)

    send_rendered-Processed :
        (env : Envelope) (start : History) (w : IsRendered env start)
        → After
            (Processed env start)
            (rendered_at env start w)
            (send_rendered o send_email env w.body)
    unfolding send_rendered
    send_rendered-Processed env start w =
        let h₃ = rendered_at env start w in
        After-try (Processed env start) (ContentOutcome o env.attachments [] h₃)
          (resolve_attachments o env.attachments []) _ _ h₃
          (resolve_attachments-outcome o env.attachments [] h₃)
          (λ contents k (more, same, all).
            let out = outbound_email env w.body contents in
            let run = send_email out k in
            sent-Processed run.0 run.1
              (record {
                rendered = w;
                contents = contents;
                read = subst (λ l. IsRead o env.attachments l h₃ k) (sym same) all;
                outbound = refl;
              })
              refl)
          (λ e k (cause, same, unread).
            subst (λ x. Processed env start (err x) k) (sym same) (w, unread))

    pub execute-Processed :
        (env : Envelope) (h : History) → After (Processed env h) h (execute o send_email env)
    unfolding execute
    execute-Processed env h =
        let h₁ = resolve env.body ∷ h in
        Result-elim (After (Processed env h) h₁) (o h (resolve env.body)) _ _
          (λ resolved p.
            let h₂ = interpolate resolved env.variables ∷ h₁ in
            Result-elim (After (Processed env h) h₂) (o h₁ (interpolate resolved env.variables)) _ _
              (λ interpolated q.
                Result-elim (After (Processed env h) (render interpolated ∷ h₂))
                  (o h₂ (render interpolated)) _ _
                  (λ body r. send_rendered-Processed env h (record {
                    resolved = resolved;
                    interpolated = interpolated;
                    body = body;
                    resolves = p;
                    interpolates = q;
                    renders = r;
                  }))
                  (λ e r. (resolved, interpolated, p, q, r, refl)))
              (λ e q. (resolved, p, q, refl)))
          (λ e p. (p, refl))

    Processed-Quiet :
        (env : Envelope) (start h : History) (r : Result SenderName ProcessQueuedEmailError)
        → ((out : OutboundEmail) (k : History) → Quiet k (send_email out k).1)
        → Processed env start r h
        → Quiet start h
    Processed-Quiet env start h (ok name) q (k, out, p, e) =
        Quiet-trans (IsPrepared-Silent env start k out p).quiet
          (subst (λ x. Quiet k x.1) e (q out k))
    Processed-Quiet env start h (err (send_failed x)) q (k, out, p, e) =
        Quiet-trans (IsPrepared-Silent env start k out p).quiet
          (subst (λ x. Quiet k x.1) e (q out k))
    Processed-Quiet env start h (err (resolve_failed _)) q (_, e) =
        subst (Quiet start) (sym e)
          (record { settled = refl; events = refl; blobs = refl; rows = refl })
    Processed-Quiet env start h (err (interpolate_failed _)) q (_, _, _, e) =
        subst (Quiet start) (sym e)
          (record { settled = refl; events = refl; blobs = refl; rows = refl })
    Processed-Quiet env start h (err (render_failed _)) q (_, _, _, _, _, e) =
        subst (Quiet start) (sym e)
          (record { settled = refl; events = refl; blobs = refl; rows = refl })
    Processed-Quiet env start h (err (attachment_resolve cause)) q (w, unread) =
        (Silent-trans (rendered-Silent env start w)
          (IsUnreadable-Silent o env.attachments cause (rendered_at env start w) h unread)).quiet

    pub execute-Quiet :
        ((out : OutboundEmail) (k : History) → Quiet k (send_email out k).1)
        → (env : Envelope) (h : History) → Quiet h (execute o send_email env h).1
    execute-Quiet q env h =
        let run = execute o send_email env h in
        Processed-Quiet env h run.1 run.0 q (execute-Processed env h)
