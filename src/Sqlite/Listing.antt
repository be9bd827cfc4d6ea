-- ===== src/Sqlite/Listing.antt =====
-- adapter/outbound-sqlite/src/email_repository.rs: the listing of emails with the status that their
-- newest event gives them, the blobs that are in use, and the deletion of an email. Whether SQLite's
-- `LIKE '%' || pattern || '%'` holds of an address is the parameter `like`.
use catapulte.Common.{
  ℕ, String, List, [], ◌∷◌, ◌++◌, Bool, false, not, ◌&&◌, ◌||◌, Option, none, some, Result, ok, err,
  map, filter, str_eq, ltb, if◌then◌else◌,
}
use catapulte.Common.Int.{ltb_ℤ, eqb_ℤ}
use catapulte.Common.Paging.{page}
use catapulte.Entity.{BlobRef, EmailId}
use catapulte.Port.Types.{EmailRepositoryError, storage}
use catapulte.Port.Queries.{EmailRecord, EmailStatus, ListEmailsParams, queued, sent, failed}
use catapulte.Port.Trace.{same_id}
use catapulte.Sqlite.{Database, EmailRow, EventRow, QueueRow, has_id}
use catapulte.Sqlite.Dto.{
  AttachmentRefDto, EnvelopeBodyDtoDeser, RecipientDto, legacy, mjml_named, recipients_from_dto,
  split, with_attachments,
}
use catapulte.Sqlite.Events.{given, is_newer}

-- The newer one of an event and of the newest behind it.
unfoldable pub newer : EventRow → Option EventRow → EventRow
newer r none = r
newer r (some s) = if is_newer s r then s else r

-- `ORDER BY le.created_at DESC, le.id DESC LIMIT 1` over the events of an email.
unfoldable pub latest : EmailId → List EventRow → Option EventRow
latest id [] = none
latest id (r ∷ rs) =
    let rest = latest id rs in if same_id r.email_id id then some (newer r rest) else rest

-- `COALESCE(..., 'queued')`
unfoldable pub latest_event_type : EmailId → List EventRow → String
latest_event_type id events = elim (latest id events) [ some e ↦ e.event_type | none ↦ "queued" ]

-- The `match` of `row_to_email_record`.
unfoldable pub status_of_type : String → EmailStatus
status_of_type type =
    if str_eq type "delivery.succeeded"
    then sent
    else if str_eq type "delivery.failed"
    then failed
    else queued

-- The clause that is pushed for a status.
unfoldable pub has_status : String → EmailStatus → Bool
has_status type sent = str_eq type "delivery.succeeded"
has_status type failed = str_eq type "delivery.failed"
has_status type queued =
    not (str_eq type "delivery.succeeded") && not (str_eq type "delivery.failed")

-- A body of an older version has no `$.source`.
unfoldable pub has_template : String → EnvelopeBodyDtoDeser → Bool
has_template template (with_attachments (mjml_named name) _) = str_eq name template
has_template template (with_attachments _ _) = false
has_template template (legacy _) = false

-- `ORDER BY created_at_ms DESC, id DESC`
unfoldable pub is_newer_email : EmailRow → EmailRow → Bool
is_newer_email a b =
    ltb_ℤ b.created_at_ms a.created_at_ms
    || (eqb_ℤ a.created_at_ms b.created_at_ms && ltb b.id.uuid a.id.uuid)

-- `row_to_email_record`
unfoldable pub to_email_record : List EventRow → EmailRow → EmailRecord
to_email_record events row = record {
  id = row.id;
  idempotency_key = row.idempotency_key;
  subject = row.subject;
  sender = row.sender;
  recipients = recipients_from_dto row.recipients;
  created_at_ms = row.created_at_ms;
  status = status_of_type (latest_event_type row.id events);
}

module _ (like : String → String → Bool) where
  -- `EXISTS (SELECT 1 FROM json_each(recipients) ...)`
  unfoldable pub has_recipient : String → List RecipientDto → Bool
  has_recipient pattern [] = false
  has_recipient pattern (d ∷ ds) = like d.address pattern || has_recipient pattern ds

  -- The WHERE clause of `list_emails` without its last part.
  unfoldable pub matches_email : ListEmailsParams → EmailRow → Bool
  matches_email params row =
      given params.id (λ id. same_id row.id id)
      && given params.after_ms (λ after. ltb_ℤ after row.created_at_ms)
      && given params.before_ms (λ before. ltb_ℤ row.created_at_ms before)
      && given params.recipient (λ pattern. has_recipient pattern row.recipients)
      && given params.template (λ template. has_template template row.body)

  unfoldable pub is_listed : ListEmailsParams → List EventRow → EmailRow → Bool
  is_listed params events row =
      matches_email params row && given params.status (has_status (latest_event_type row.id events))

  -- The rows that `list_emails` reads.
  abbrev pub selected_emails : ListEmailsParams → Database → List EmailRow
  selected_emails params db =
      page is_newer_email (is_listed params db.events) params.limit params.offset db.emails

  unfoldable pub list_emails :
      (ℕ → Bool) → ListEmailsParams → Database → Result (List EmailRecord) EmailRepositoryError
  list_emails fails params db =
      if fails 0
      then err (storage "listing emails")
      else ok (map (to_email_record db.events) (selected_emails params db))

-- The blobs of the attachments of a body.
unfoldable pub blobs_of : List AttachmentRefDto → List BlobRef
blobs_of [] = []
blobs_of (a ∷ rest) = record { backend = a.blob.backend; key = a.blob.key } ∷ blobs_of rest

-- The loop over the bodies of the emails that are neither sent nor failed.
unfoldable pub collect_blobs : List EventRow → List EmailRow → List BlobRef
collect_blobs events [] = []
collect_blobs events (row ∷ rows) =
    let rest = collect_blobs events rows in
    if has_status (latest_event_type row.id events) queued
    then blobs_of (split row.body).1 ++ rest
    else rest

unfoldable pub list_all_attachment_blobs :
    (ℕ → Bool) → Database → Result (List BlobRef) EmailRepositoryError
list_all_attachment_blobs fails db =
    if fails 0
    then err (storage "listing email bodies for attachment blobs")
    else ok (collect_blobs db.events db.emails)

-- Whether a row of another table refers to the email.
unfoldable pub has_event_of : EmailId → List EventRow → Bool
has_event_of id [] = false
has_event_of id (r ∷ rs) = same_id r.email_id id || has_event_of id rs

unfoldable pub has_entry_of : EmailId → List QueueRow → Bool
has_entry_of id [] = false
has_entry_of id (r ∷ rs) = same_id r.email_id id || has_entry_of id rs

-- `EmailRepository::delete`. A row that others refer to cannot be deleted, and that there is no row
-- is no error.
unfoldable pub delete :
    (ℕ → Bool) → EmailId → Database → Result (Unit {0}) EmailRepositoryError × Database
delete fails id db =
    if fails 0
    then (err (storage "deleting email"), db)
    else if has_event_of id db.events || has_entry_of id db.queue
    then (err (storage "deleting email"), db)
    else (ok tt, record db { emails = filter (λ row. not (has_id id row)) db.emails })
