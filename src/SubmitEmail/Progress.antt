-- ===== src/SubmitEmail/Progress.antt =====
-- `SubmitEmailService::execute` when every port serves it.
use catapulte.Common.{List, [], ◌∷◌, ◌++◌, ◌≡◌, refl, ok}
use catapulte.Entity.{AttachmentRef, EmailId, Envelope, Url}
use catapulte.Port.Types.{AttachmentReader, PutResult, created}
use catapulte.Port.Call.{History, Oracle, ask, enqueue, fetch, put, save, set_attachments}
use catapulte.Port.Rules.{After-ok}
use catapulte.SubmitEmail.{
  AttachmentInput, inline, stream, remote, SubmitEmailInput, attachment_ref, envelope_of, execute,
  submit_saved, submit_created, store_attachments, patch_attachments, enqueue_email, open_reader,
}

-- Each port answers what a submission asks of it, whatever happened before.
pub record IsServing (o : Oracle) : Type 0 where
  pub saves :
      (h : History) (id : EmailId) (e : Envelope)
      → (i : EmailId) × (o h (save id e) ≡ ok (created i))
  pub fetches : (h : History) (url : Url) → (r : AttachmentReader) × (o h (fetch url) ≡ ok r)
  pub stores : (h : History) (r : AttachmentReader) → (p : PutResult) × (o h (put r) ≡ ok p)
  pub patches :
      (h : History) (id : EmailId) (refs : List AttachmentRef)
      → o h (set_attachments id refs) ≡ ok tt
  pub queues : (h : History) (id : EmailId) (e : Envelope) → o h (enqueue id e) ≡ ok tt

module _ (o : Oracle) (serving : IsServing o) where
  open_reader_ok :
      (att : AttachmentInput) (h : History)
      → (r : AttachmentReader) × ((open_reader o att h).0 ≡ ok r)
  unfolding open_reader
  open_reader_ok (inline _ _ bytes) h = (ok bytes, refl)
  open_reader_ok (stream _ _ reader) h = (reader, refl)
  open_reader_ok (remote _ _ url) h = serving.fetches h url

  store_attachments_ok :
      (id : EmailId) (atts : List AttachmentInput) (written : List AttachmentRef) (h : History)
      → (refs : List AttachmentRef) × ((store_attachments o id atts written h).0 ≡ ok refs)
  unfolding store_attachments
  store_attachments_ok id [] written h = (written, refl)
  store_attachments_ok id (att ∷ rest) written h =
      let (reader, opened) = open_reader_ok att h in
      let k = (open_reader o att h).1 in
      let (p, stored) = serving.stores k reader in
      let (refs, e) =
        store_attachments_ok id rest (written ++ attachment_ref att p ∷ []) (put reader ∷ k) in
      (
        refs,
        After-ok (λ r _. r ≡ ok refs) (open_reader o att) _ _ h opened
            (After-ok (λ r _. r ≡ ok refs) (ask o (put reader)) _ _ k stored e),
      )

  patch_attachments_ok :
      (id : EmailId) (refs : List AttachmentRef) (h : History)
      → (patch_attachments o id refs h).0 ≡ ok tt
  unfolding patch_attachments
  patch_attachments_ok id [] h = refl
  patch_attachments_ok id (r ∷ rest) h = rw (serving.patches h id (r ∷ rest))

  enqueue_email_ok :
      (id : EmailId) (input : SubmitEmailInput) (refs : List AttachmentRef) (h : History)
      → (enqueue_email o id input refs h).0 ≡ ok id
  unfolding enqueue_email
  enqueue_email_ok id input refs h = rw (serving.queues h id (envelope_of input refs))

  submit_created_ok :
      (id : EmailId) (input : SubmitEmailInput) (h : History)
      → (submit_created o id input h).0 ≡ ok id
  unfolding submit_created
  submit_created_ok id input h =
      let (refs, stored) = store_attachments_ok id input.attachments [] h in
      let k = (store_attachments o id input.attachments [] h).1 in
      After-ok (λ r _. r ≡ ok id) (store_attachments o id input.attachments []) _ _ h stored
        (After-ok (λ r _. r ≡ ok id) (patch_attachments o id refs) _ _ k
          (patch_attachments_ok id refs k) (enqueue_email_ok id input refs _))

  -- If each port serves every call that a submission can make, the submission returns its new id.
  pub execute_ok :
      (id : EmailId) (input : SubmitEmailInput) (h : History) → (execute o id input h).0 ≡ ok id
  unfolding execute submit_saved
  execute_ok id input h =
      let (i, saved) = serving.saves h id (envelope_of input []) in
      rw saved (submit_created_ok id input _)
