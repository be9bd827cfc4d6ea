-- ===== src/SubmitEmail.antt =====
-- domain/src/use_case/submit_email.rs: an email is reserved in the repository, its attachments are
-- stored, and it is queued; a failure on the way takes back what was done. Tracing is left out, and
-- `EmailId::default()`, a random uuid, is the argument `id`.
pub mod RollBack
pub mod Failure
pub mod Progress
pub mod Stored
pub mod Success
use catapulte.Common.{String, List, [], ◌∷◌, ◌++◌, Option, Bool, true, false, Result, ok, err}
use catapulte.Entity.{AttachmentRef, Bytes, EmailId, Envelope, RecipientKind, Url, Variables}
use catapulte.Entity.Body.{BodySource}
use catapulte.Entity.LifecycleEvent.{queued}
use catapulte.Port.Types.{
  AttachmentFetchError, AttachmentReader, AttachmentStoreError, EmailQueueError,
  EmailRepositoryError, PutResult, SaveResult, created, duplicate,
}
use catapulte.Port.Call.{
  Exec, Oracle, ask, ret, ◌>>=◌, ◌>>◌, delete_blob, delete_email, enqueue, fetch, publish, put,
  save, set_attachments,
}

pub data AttachmentInput : Type 0 where
  inline : String → String → Bytes → AttachmentInput
  stream : String → String → AttachmentReader → AttachmentInput
  remote : String → String → Url → AttachmentInput

pub record SubmitEmailInput : Type 0 where
  pub idempotency_key : Option String
  pub correlation_id : Option String
  pub subject : Option String
  pub sender : String
  pub recipients : List (RecipientKind × String)
  pub body : BodySource
  pub variables : Variables
  pub attachments : List AttachmentInput

pub data SubmitEmailError : Type 0 where
  persist : EmailRepositoryError → SubmitEmailError
  enqueue_failed : EmailQueueError → SubmitEmailError
  attachment_store : AttachmentStoreError → SubmitEmailError
  attachment_fetch : AttachmentFetchError → SubmitEmailError

unfoldable pub is_transient : SubmitEmailError → Bool
is_transient (persist _) = true
is_transient (enqueue_failed _) = true
is_transient (attachment_store _) = true
is_transient (attachment_fetch _) = false

-- The envelope of an input, with the attachments that are known so far.
unfoldable pub envelope_of : SubmitEmailInput → List AttachmentRef → Envelope
envelope_of input refs = record {
  idempotency_key = input.idempotency_key;
  correlation_id = input.correlation_id;
  subject = input.subject;
  sender = input.sender;
  recipients = input.recipients;
  body = input.body;
  variables = input.variables;
  attachments = refs;
}

abbrev pub filename : AttachmentInput → String
filename (inline name _ _) = name
filename (stream name _ _) = name
filename (remote name _ _) = name

abbrev pub content_type : AttachmentInput → String
content_type (inline _ type _) = type
content_type (stream _ type _) = type
content_type (remote _ type _) = type

unfoldable pub attachment_ref : AttachmentInput → PutResult → AttachmentRef
attachment_ref att stored = record {
  filename = filename att;
  content_type = content_type att;
  size_bytes = stored.size_bytes;
  blob = stored.blob;
}

module _ (o : Oracle) where
  -- The content of an attachment; only a remote one is fetched.
  unfoldable pub open_reader : AttachmentInput → Exec (Result AttachmentReader AttachmentFetchError)
  open_reader (inline _ _ bytes) = ret (ok (ok bytes))
  open_reader (stream _ _ reader) = ret (ok reader)
  open_reader (remote _ _ url) = ask o (fetch url)

  -- `for r in &written_refs { let _ = self.attachment_store.delete(&r.blob).await; }`
  unfoldable pub delete_blobs : List AttachmentRef → Exec (Unit {0})
  delete_blobs [] = ret tt
  delete_blobs (r ∷ rest) = do ask o (delete_blob r.blob); delete_blobs rest

  -- What each failure does before it returns its error.
  unfoldable pub roll_back :
      {A : Type 0}
      → EmailId
      → List AttachmentRef
      → SubmitEmailError
      → Exec (Result A SubmitEmailError)
  roll_back id written e = do delete_blobs written; ask o (delete_email id); ret (err e)

  -- The loop over the attachments; `written` are the references of the stored ones, in order.
  unfoldable pub store_attachments :
      EmailId
      → List AttachmentInput
      → List AttachmentRef
      → Exec (Result (List AttachmentRef) SubmitEmailError)
  store_attachments id [] written = ret (ok written)
  store_attachments id (att ∷ rest) written = do
    opened ← open_reader att
    elim opened [
      | err e ↦ roll_back id written (attachment_fetch e)
      | ok reader ↦ do
        stored ← ask o (put reader)
        elim stored [
          | ok p ↦ store_attachments id rest (written ++ attachment_ref att p ∷ [])
          | err e ↦ roll_back id written (attachment_store e)
        ]
    ]

  -- `set_attachments` is called only if something was stored.
  unfoldable pub patch_attachments :
      EmailId → List AttachmentRef → Exec (Result (Unit {0}) SubmitEmailError)
  patch_attachments id [] = ret (ok tt)
  patch_attachments id (r ∷ rest) = do
    patched ← ask o (set_attachments id (r ∷ rest))
    elim patched [ ok _ ↦ ret (ok tt) | err e ↦ roll_back id (r ∷ rest) (persist e) ]

  -- The last part: the email is queued, and its event is published whatever becomes of that.
  unfoldable pub enqueue_email :
      EmailId → SubmitEmailInput → List AttachmentRef → Exec (Result EmailId SubmitEmailError)
  enqueue_email id input refs = do
    queued_up ← ask o (enqueue id (envelope_of input refs))
    elim queued_up [
      | err e ↦ roll_back id refs (enqueue_failed e)
      | ok _ ↦ do ask o (publish (queued id input.correlation_id)); ret (ok id)
    ]

  -- What follows the reservation of a new row.
  unfoldable pub submit_created :
      EmailId → SubmitEmailInput → Exec (Result EmailId SubmitEmailError)
  submit_created id input = do
    stored ← store_attachments id input.attachments []
    elim stored [
      | err e ↦ ret (err e)
      | ok refs ↦ do
        patched ← patch_attachments id refs
        elim patched [ err e ↦ ret (err e) | ok _ ↦ enqueue_email id input refs ]
    ]

  -- The `match` on what `save` returned.
  unfoldable pub submit_saved :
      EmailId → SubmitEmailInput → SaveResult → Exec (Result EmailId SubmitEmailError)
  submit_saved id input (duplicate existing) = ret (ok existing)
  submit_saved id input (created _) = submit_created id input

  unfoldable pub execute : EmailId → SubmitEmailInput → Exec (Result EmailId SubmitEmailError)
  execute id input = do
    saved ← ask o (save id (envelope_of input []))
    elim saved [ ok result ↦ submit_saved id input result | err e ↦ ret (err (persist e)) ]
