-- ===== src/Processing.antt =====
-- domain/src/use_case/process_queued_email.rs: a queued email is resolved, interpolated, rendered,
-- given the content of its attachments and handed to a sender. Tracing is left out. The sender is
-- the parameter `send`, as the service is generic in it.
pub mod Content
pub mod Outcome
use catapulte.Common.{List, [], ◌∷◌, ◌++◌, Bool, true, false, Option, none, Result, ok, err}
use catapulte.Entity.{AnyError, AttachmentRef, Bytes, BlobRef, Envelope, ResolvedAttachment}
use catapulte.Entity.Body.{InterpolatedBody, RenderedBody, ResolvedBody}
use catapulte.Entity.ErrorClass.{
  ErrorClass, template_resolve, template_interpolate, template_render, attachment, delivery,
  routing,
}
use catapulte.Entity.Sender.{SenderName}
use catapulte.Port.Types.{
  AttachmentReader, AttachmentStoreError, InterpolateError, OutboundEmail, RenderError,
  ResolveError, SendError, send, no_matching_route,
}
use catapulte.Port.Types
use catapulte.Port.Call.{Exec, Oracle, ask, ret, ◌>>=◌, get, interpolate, render, resolve}

-- The `source` of an `AttachmentResolve` error: the store's answer, or a failed read.
pub data AttachmentCause : Type 0 where
  store : AttachmentStoreError → AttachmentCause
  read : AnyError → AttachmentCause

pub data ProcessQueuedEmailError : Type 0 where
  resolve_failed : ResolveError → ProcessQueuedEmailError
  interpolate_failed : InterpolateError → ProcessQueuedEmailError
  render_failed : RenderError → ProcessQueuedEmailError
  send_failed : SendError → ProcessQueuedEmailError
  attachment_resolve : AttachmentCause → ProcessQueuedEmailError

unfoldable pub sender_name : ProcessQueuedEmailError → Option SenderName
sender_name (send_failed e) = Types.sender_name e
sender_name _ = none

unfoldable pub error_class : ProcessQueuedEmailError → ErrorClass
error_class (resolve_failed _) = template_resolve
error_class (interpolate_failed _) = template_interpolate
error_class (render_failed _) = template_render
error_class (attachment_resolve _) = attachment
error_class (send_failed (send _ _)) = delivery
error_class (send_failed (no_matching_route _)) = routing

-- An attachment with its content.
unfoldable pub resolved_attachment : AttachmentRef → Bytes → ResolvedAttachment
resolved_attachment att bytes = record {
  filename = att.filename;
  content_type = att.content_type;
  bytes = bytes;
}

unfoldable pub outbound_email : Envelope → RenderedBody → List ResolvedAttachment → OutboundEmail
outbound_email env body attachments = record {
  sender = env.sender;
  subject = env.subject;
  recipients = env.recipients;
  body = body;
  attachments = attachments;
}

-- `?` on the sender's answer, and the `Ok(sender_name)` behind it.
unfoldable pub send_result :
    Result SenderName SendError → Exec (Result SenderName ProcessQueuedEmailError)
send_result (ok name) = ret (ok name)
send_result (err e) = ret (err (send_failed e))

module _ (o : Oracle) where
  -- One round of the loop: the blob is opened and read to its end.
  unfoldable pub read_blob : BlobRef → Exec (Result Bytes ProcessQueuedEmailError)
  read_blob blob = do
    opened ← ask o (get blob)
    elim opened [
      | err e ↦ ret (err (attachment_resolve (store e)))
      | ok reader ↦ elim reader [
        | err e ↦ ret (err (attachment_resolve (read e)))
        | ok bytes ↦ ret (ok bytes)
      ]
    ]

  unfoldable pub resolve_attachments :
      List AttachmentRef
      → List ResolvedAttachment
      → Exec (Result (List ResolvedAttachment) ProcessQueuedEmailError)
  resolve_attachments [] resolved = ret (ok resolved)
  resolve_attachments (att ∷ rest) resolved = do
    content ← read_blob att.blob
    elim content [
      | err e ↦ ret (err e)
      | ok bytes ↦ resolve_attachments rest (resolved ++ resolved_attachment att bytes ∷ [])
    ]

  module _ (send_email : OutboundEmail → Exec (Result SenderName SendError)) where
    -- The last two steps: the attachments and the sender.
    unfoldable pub send_rendered :
        Envelope → RenderedBody → Exec (Result SenderName ProcessQueuedEmailError)
    send_rendered env body = do
      content ← resolve_attachments env.attachments []
      elim content [
        | err e ↦ ret (err e)
        | ok attachments ↦ do
          sent ← send_email (outbound_email env body attachments)
          send_result sent
      ]

    unfoldable pub execute : Envelope → Exec (Result SenderName ProcessQueuedEmailError)
    execute env = do
      found ← ask o (resolve env.body)
      elim found [
        | err e ↦ ret (err (resolve_failed e))
        | ok resolved ↦ do
          filled ← ask o (interpolate resolved env.variables)
          elim filled [
            | err e ↦ ret (err (interpolate_failed e))
            | ok interpolated ↦ do
              drawn ← ask o (render interpolated)
              elim drawn [ err e ↦ ret (err (render_failed e)) | ok body ↦ send_rendered env body ]
          ]
      ]
