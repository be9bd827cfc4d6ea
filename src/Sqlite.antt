-- ===== src/Sqlite.antt =====
-- adapter/outbound-sqlite/src: emails and their queue in a SQLite database. A statement is atomic; one
-- that fails leaves the database as it is. Which statements of an operation fail is an argument of
-- it, by their position from 0, and so are the ids and the times that it draws.
pub mod Dto
pub mod Stored
pub mod Queue
pub mod Events
pub mod Usage
pub mod Listing
pub mod Status
pub mod Integrity
pub mod Sound
pub mod Operations
use catapulte.Common.{
  ℕ, ◌+◌, ◌-◌, ◌^◌, String, List, [], ◌∷◌, ◌++◌, Bool, true, false, not, ◌&&◌, ◌||◌, Option, none,
  some, Result, ok, err, map, filter, str_eq, leb, ltb, ◌==◌, if◌then◌else◌,
}
use catapulte.Common.Int.{ℤ, pos, negsuc, ltb_ℤ, i64_max}
use catapulte.Entity.{AnyError, AttachmentRef, Bytes, BlobRef, EmailId, Envelope, Url, Variables}
use catapulte.Entity.LifecycleEvent.{Scalar}
use catapulte.Port.Types.{
  AckToken, DequeuedEmail, EmailQueueError, EmailRepositoryError, SaveResult, TraceCarrier, created,
  duplicate, storage,
}
use catapulte.Port.Trace.{same_id}
use Dto.{
  AttachmentRefDto, BodySourceDto, EnvelopeBodyDto, EnvelopeBodyDtoDeser, RecipientDto,
  attachment_from_dto, attachment_to_dto, body_from_dto, body_to_dto, recipients_from_dto,
  recipients_to_dto, split, with_attachments,
}

pub record EmailRow : Type 0 where
  pub id : EmailId
  pub idempotency_key : Option String
  pub correlation_id : Option String
  pub subject : Option String
  pub sender : String
  pub recipients : List RecipientDto
  pub body : EnvelopeBodyDtoDeser
  pub variables : Variables
  pub created_at_ms : ℤ

-- `claimed_until` is NULL at first.
pub record QueueRow : Type 0 where
  pub id : Bytes
  pub email_id : EmailId
  pub enqueued_at : ℕ
  pub claimed_until : Option ℤ
  pub attempt_count : ℕ
  pub trace : TraceCarrier

-- The event's id is the number that its 16 bytes make. `payload` may be NULL in old rows.
pub record EventRow : Type 0 where
  pub id : ℕ
  pub email_id : EmailId
  pub event_type : String
  pub payload : Option (List (String × Scalar))
  pub sender_name : Option String
  pub error_class : Option String
  pub created_at : ℤ

-- The rows in the order in which SQLite visits them.
pub record Database : Type 0 where
  pub emails : List EmailRow
  pub queue : List QueueRow
  pub events : List EventRow

-- The value that is read back from what `EnvelopeBodyDto` was written as.
unfoldable pub read_back : EnvelopeBodyDto → EnvelopeBodyDtoDeser
read_back body = with_attachments body.source body.attachments

unfoldable pub body_dto : Envelope → EnvelopeBodyDto
body_dto env = record {
  source = body_to_dto env.body;
  attachments = map attachment_to_dto env.attachments;
}

-- The row of an email that is saved at the time `at`.
unfoldable pub email_row : ℤ → EmailId → Envelope → EmailRow
email_row at id env = record {
  id = id;
  idempotency_key = env.idempotency_key;
  correlation_id = env.correlation_id;
  subject = env.subject;
  sender = env.sender;
  recipients = recipients_to_dto env.recipients;
  body = read_back (body_dto env);
  variables = env.variables;
  created_at_ms = at;
}

abbrev pub has_key : String → EmailRow → Bool
has_key key row = elim row.idempotency_key [ some k ↦ str_eq k key | none ↦ false ]

-- The first row that passes a test.
unfoldable pub find_email : (EmailRow → Bool) → List EmailRow → Option EmailRow
find_email p [] = none
find_email p (r ∷ rs) = if p r then some r else find_email p rs

abbrev pub has_id : EmailId → EmailRow → Bool
has_id id row = same_id row.id id

-- Whether the primary key or the unique index on `idempotency_key` refuses a row.
unfoldable pub conflicts : EmailRow → EmailRow → Bool
conflicts new row =
    same_id row.id new.id || (elim new.idempotency_key [ some k ↦ has_key k row | none ↦ false ])

-- What `save` does after its insert was ignored.
unfoldable pub find_duplicate :
    Bool → Option String → Database → Result SaveResult EmailRepositoryError
find_duplicate fails none db =
    err (storage "insert skipped with no idempotency key (unexpected id collision)")
find_duplicate true (some key) db = err (storage "fetching existing email by idempotency key")
find_duplicate false (some key) db = elim (find_email (has_key key) db.emails) [
  | some row ↦ ok (duplicate row.id)
  | none ↦ err (storage "fetching existing email by idempotency key")
]

-- `save`; each result comes with the database that is left.
unfoldable pub save :
    (ℕ → Bool)
    → ℤ
    → EmailId
    → Envelope
    → Database
    → Result SaveResult EmailRepositoryError × Database
save fails at id env db =
    let row = email_row at id env in
    if fails 0
    then (err (storage "inserting email"), db)
    else elim (find_email (conflicts row) db.emails) [
      | none ↦ (ok (created id), record db { emails = db.emails ++ row ∷ [] })
      | some _ ↦ (find_duplicate (fails 1) env.idempotency_key db, db)
    ]

-- `UPDATE emails SET body = ? WHERE id = ?`
unfoldable pub update_body : EmailId → EnvelopeBodyDtoDeser → List EmailRow → List EmailRow
update_body id body [] = []
update_body id body (r ∷ rs) =
    let rest = update_body id body rs in
    if same_id r.id id then record r { body = body } ∷ rest else r ∷ rest

-- The body with its attachments replaced.
unfoldable pub patched_body : List AttachmentRef → EnvelopeBodyDtoDeser → EnvelopeBodyDtoDeser
patched_body refs old =
    read_back (record { source = (split old).0; attachments = map attachment_to_dto refs })

-- `set_attachments`, one transaction of four statements, in which the row that was read is there to be
-- updated. The message of a missing row leaves out its id.
unfoldable pub set_attachments :
    (ℕ → Bool)
    → EmailId
    → List AttachmentRef
    → Database
    → Result (Unit {0}) EmailRepositoryError × Database
set_attachments fails id refs db =
    if fails 0
    then (err (storage "starting transaction"), db)
    else if fails 1
    then (err (storage "reading body for set_attachments"), db)
    else elim (find_email (has_id id) db.emails) [
      | none ↦ (err (storage "email not found for set_attachments"), db)
      | some row ↦
          if fails 2
          then (err (storage "writing body for set_attachments"), db)
          else if fails 3
          then (err (storage "committing set_attachments transaction"), db)
          else (ok tt, record db { emails = update_body id (patched_body refs row.body) db.emails })
    ]
