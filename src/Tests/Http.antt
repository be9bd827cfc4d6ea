-- ===== src/Tests/Http.antt =====
-- Requests to the HTTP interface.
use catapulte.Common.{ℕ, String, List, [], ◌∷◌, ◌≡◌, refl, none, some, Result, ok, err, arith}
use catapulte.Entity.{AnyError, EmailId, Uuid, RecipientKind}
use catapulte.Entity.Body.{BodySource, try_new}
use catapulte.Port.Call.{After}
use catapulte.Port.Queries as Queries
use catapulte.SubmitEmail.{SubmitEmailInput, inline}
use catapulte.Common.Sorting.{sort_by}
use catapulte.Sqlite.Listing as Listing
use catapulte.Sqlite.Listing.{has_status, is_listed, latest, latest_event_type, matches_email}
use catapulte.Http.Dto.{
  EnvelopeCoreDto, Parsers, SubmitEmailRequest, body_from_dto, collect_recipients,
  core_into_submit_input, kind_from_dto, plain, to, validate_envelope, validate_recipients,
  validate_sender,
}
use catapulte.Http.Reader.{
  Source, after_read, continue_with, new, poll_inner, poll_read, read_to_end,
}
use catapulte.Http.Reader as Reader
use catapulte.Http.Reading.{read_all, read_to_end_lem}
use catapulte.Http.Emails.{
  Codec, Field, attachment_field, envelope_field, finish_parts, handle_multipart, multipart,
  named_attachment, read_field, read_part, read_parts, request_input, submit_email_batch,
}
use catapulte.Http.Accepted.{IsAccepted, request_input-IsAccepted}
use catapulte.Http.Batch.{BatchOutcome, submit_email_batch-BatchOutcome}
use catapulte.Http.Listings.{
  EmailStatusDto, ListEmailsQuery, ListEmailsResponse, limit_of, list_emails, parse_id,
  status_from_dto,
}
use catapulte.Http.Paged.{IsPage, list_emails-IsPage}
use catapulte.Tests.Ports.{serving}
use catapulte.Tests.Database.{equal_text, with_events}

abbrev parsers : Parsers
parsers = record {
  parse_address = λ _. ok tt;
  decode_base64 = λ _. ok (1 ∷ 2 ∷ []);
  parse_url = λ u. ok u;
}

abbrev core : EnvelopeCoreDto
core = record {
  idempotency_key = none;
  correlation_id = none;
  subject = none;
  sender = "a@example.com";
  recipients = record { kind = to; address = "b@example.com" } ∷ [];
  body = plain (some "hi") none;
  variables = "{}";
}

abbrev request : SubmitEmailRequest
request = record {
  idempotency_key = none;
  correlation_id = none;
  subject = none;
  sender = "a@example.com";
  recipients = record { kind = to; address = "b@example.com" } ∷ [];
  body = plain (some "hi") none;
  variables = "{}";
  attachments = [];
}

abbrev codec : Codec
codec = record {
  parsers = parsers;
  parse_request = λ _. ok request;
  parse_core = λ _. ok core;
  print_uuid = λ _. "0";
  size = λ _. 1;
}

abbrev some_bytes : Source
some_bytes = record { left = 1 ∷ 2 ∷ 3 ∷ []; failure = none }

-- Three bytes through a limit of two.
read_to_end_lem_example :
    read_to_end (λ _. 0) 4 (Reader.new some_bytes 2) [] ≡ some (read_all 2 some_bytes [])
read_to_end_lem_example = read_to_end_lem (λ _. 0) 4 2 some_bytes (omega arith)

abbrev fields : List (Result Field AnyError)
fields =
    ok (record {
      name = some "envelope";
      file_name = none;
      content_type = none;
      content = record { left = []; failure = none };
    })
    ∷ ok (record {
      name = some "attachment";
      file_name = some "a.txt";
      content_type = none;
      content = some_bytes;
    })
    ∷ []

abbrev submitted : SubmitEmailInput
submitted = record {
  idempotency_key = none;
  correlation_id = none;
  subject = none;
  sender = "a@example.com";
  recipients = (RecipientKind.to, "b@example.com") ∷ [];
  body = BodySource.plain (record { text = some "hi"; html = none });
  variables = "{}";
  attachments = inline "a.txt" "application/octet-stream" (1 ∷ 2 ∷ 3 ∷ []) ∷ [];
}

request_input-IsAccepted_example : IsAccepted parsers submitted
unfolding request_input handle_multipart read_parts read_part envelope_field attachment_field
    named_attachment read_field read_to_end continue_with poll_read poll_inner after_read
    finish_parts core_into_submit_input validate_envelope validate_sender validate_recipients
    collect_recipients body_from_dto kind_from_dto try_new Reader.new
request_input-IsAccepted_example = request_input-IsAccepted codec (multipart fields) submitted refl

abbrev first_id : ℕ → EmailId
first_id n = record { uuid = n }

submit_email_batch-BatchOutcome_example :
    After
      (BatchOutcome codec serving first_id (request ∷ record request { recipients = [] } ∷ []) [])
      []
      (submit_email_batch codec serving first_id
        (request ∷ record request { recipients = [] } ∷ []))
submit_email_batch-BatchOutcome_example =
    submit_email_batch-BatchOutcome codec serving first_id
      (request ∷ record request { recipients = [] } ∷ []) []

abbrev query : ListEmailsQuery
query = record {
  status = some EmailStatusDto.sent;
  after_ms = none;
  before_ms = none;
  recipient = none;
  template = none;
  id = none;
  limit = some 500;
  offset = none;
}

abbrev no_uuid : String → Result Uuid AnyError
no_uuid s = err "not a uuid"

abbrev answer : ListEmailsResponse
answer = record { emails = []; limit = 100; offset = 0 }

list_emails-IsPage_example : IsPage no_uuid (λ _. "0") equal_text (with_events []) query answer
unfolding list_emails parse_id limit_of Queries.list_emails Listing.list_emails sort_by is_listed
    matches_email has_status latest_event_type latest status_from_dto
list_emails-IsPage_example =
    list_emails-IsPage no_uuid (λ _. "0") equal_text (with_events []) query answer refl
