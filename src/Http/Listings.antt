-- ===== src/Http/Listings.antt =====
-- adapter/inbound-http/src: the handlers that list emails, events and senders (routes/emails.rs,
-- routes/events.rs, routes/senders.rs, with their transfer objects in dto.rs) and that report the state
-- of the service (routes/health.rs). A use case is the function that the handler calls.
use catapulte.Common.{ℕ, String, List, [], ◌∷◌, Option, none, some, Result, ok, err, map, min}
use catapulte.Common.Int.{ℤ}
use catapulte.Entity.{AnyError, EmailId, RecipientKind, Uuid}
use catapulte.Entity.ErrorClass.{ErrorClass, from_str}
use catapulte.Entity.LifecycleEvent.{Scalar}
use catapulte.Entity.Sender.{SenderQuota, to_string}
use catapulte.ListSenders.{ListSendersError, SenderSnapshot}
use catapulte.Port.Queries.{
  EmailRecord, EmailStatus, EventRecord, ListEmailsError, ListEmailsParams, ListEventsError,
  ListEventsParams, Readiness, not_ready, ready,
}
use catapulte.Http.Failure.{
  AppError, invalid_email_id, invalid_error_class, list_emails_failed, list_events_failed,
  list_senders_failed,
}

abbrev pub default_limit : ℕ
default_limit = 20

abbrev pub max_limit : ℕ
max_limit = 100

pub data EmailStatusDto : Type 0 where
  queued sent failed : EmailStatusDto

unfoldable pub status_from_dto : EmailStatusDto → EmailStatus
status_from_dto EmailStatusDto.queued = EmailStatus.queued
status_from_dto EmailStatusDto.sent = EmailStatus.sent
status_from_dto EmailStatusDto.failed = EmailStatus.failed

pub record ListEmailsQuery : Type 0 where
  pub status : Option EmailStatusDto
  pub after_ms : Option ℤ
  pub before_ms : Option ℤ
  pub recipient : Option String
  pub template : Option String
  pub id : Option String
  pub limit : Option ℕ
  pub offset : Option ℕ

pub record ListEventsQuery : Type 0 where
  pub email_id : Option String
  pub event_type : Option String
  pub sender_name : Option String
  pub error_class : Option String
  pub after_ms : Option ℤ
  pub before_ms : Option ℤ
  pub limit : Option ℕ
  pub offset : Option ℕ

pub record RecipientResponseDto : Type 0 where
  pub kind : String
  pub address : String

pub record EmailRecordDto : Type 0 where
  pub id : String
  pub idempotency_key : Option String
  pub subject : Option String
  pub sender : String
  pub recipients : List RecipientResponseDto
  pub created_at_ms : ℤ
  pub status : String

pub record EventRecordDto : Type 0 where
  pub id : String
  pub email_id : String
  pub event_type : String
  pub payload : Option (List (String × Scalar))
  pub sender_name : Option String
  pub error_class : Option String
  pub created_at_ms : ℤ

pub record ListEmailsResponse : Type 0 where
  pub emails : List EmailRecordDto
  pub limit : ℕ
  pub offset : ℕ

pub record ListEventsResponse : Type 0 where
  pub events : List EventRecordDto
  pub limit : ℕ
  pub offset : ℕ

pub record SenderQuotaDto : Type 0 where
  pub count : ℕ
  pub range : String

pub record SenderDto : Type 0 where
  pub name : String
  pub sent_in_range : ℕ
  pub failed_in_range : ℕ
  pub quota : Option SenderQuotaDto
  pub match_sender_domain : Option String

abbrev pub unwrap_or : {A : Type 0} → Option A → A → A
unwrap_or (some a) d = a
unwrap_or none d = d

-- `limit.unwrap_or(DEFAULT).min(MAX)`, the same for emails and for events.
unfoldable pub limit_of : Option ℕ → ℕ
limit_of limit = min (unwrap_or limit default_limit) max_limit

unfoldable pub print_status : EmailStatus → String
print_status EmailStatus.queued = "queued"
print_status EmailStatus.sent = "sent"
print_status EmailStatus.failed = "failed"

unfoldable pub print_kind : RecipientKind → String
print_kind RecipientKind.to = "to"
print_kind RecipientKind.cc = "cc"
print_kind RecipientKind.bcc = "bcc"

unfoldable pub recipients_to_response : List (RecipientKind × String) → List RecipientResponseDto
recipients_to_response [] = []
recipients_to_response ((kind, address) ∷ rest) =
    record { kind = print_kind kind; address = address } ∷ recipients_to_response rest

unfoldable pub parse_error_class : Option String → Result (Option ErrorClass) AppError
parse_error_class none = ok none
parse_error_class (some s) = elim (from_str s) [
  | ok class ↦ ok (some class)
  | err _ ↦ err invalid_error_class
]

unfoldable pub quota_to_dto : Option SenderQuota → Option SenderQuotaDto
quota_to_dto none = none
quota_to_dto (some q) = some (record { count = q.count; range = to_string q.range })

unfoldable pub sender_to_dto : SenderSnapshot → SenderDto
sender_to_dto u = record {
  name = u.config.name.as_str;
  sent_in_range = u.sent_in_range;
  failed_in_range = u.failed_in_range;
  quota = quota_to_dto u.config.quota;
  match_sender_domain = u.config.match_sender_domain;
}

unfoldable pub list_senders :
    Result (List SenderSnapshot) ListSendersError → Result (List SenderDto) AppError
list_senders (ok snapshots) = ok (map sender_to_dto snapshots)
list_senders (err e) = err (list_senders_failed e)

-- `ready`: the status code and the status of the body.
unfoldable pub ready_response : Readiness → ℕ × String
ready_response ready = (200, "ok")
ready_response not_ready = (503, "unavailable")

module _ (parse_uuid : String → Result Uuid AnyError) (print_uuid : Uuid → String) where
  -- `From<EmailRecord> for EmailRecordDto`
  unfoldable pub email_to_dto : EmailRecord → EmailRecordDto
  email_to_dto r = record {
    id = print_uuid r.id.uuid;
    idempotency_key = r.idempotency_key;
    subject = r.subject;
    sender = r.sender;
    recipients = recipients_to_response r.recipients;
    created_at_ms = r.created_at_ms;
    status = print_status r.status;
  }

  -- `From<EventRecord> for EventRecordDto`
  unfoldable pub event_to_dto : EventRecord → EventRecordDto
  event_to_dto r = record {
    id = print_uuid r.id;
    email_id = print_uuid r.email_id.uuid;
    event_type = r.event_type;
    payload = r.payload;
    sender_name = elim r.sender_name [ some n ↦ some n.as_str | none ↦ none ];
    error_class = r.error_class;
    created_at_ms = r.created_at_ms;
  }

  unfoldable pub parse_id : Option String → Result (Option EmailId) AppError
  parse_id none = ok none
  parse_id (some raw) = elim (parse_uuid raw) [
    | ok uuid ↦ ok (some (record { uuid = uuid }))
    | err _ ↦ err invalid_email_id
  ]

  abbrev pub emails_params : ListEmailsQuery → Option EmailId → ListEmailsParams
  emails_params query id = record {
    status = elim query.status [ some s ↦ some (status_from_dto s) | none ↦ none ];
    after_ms = query.after_ms;
    before_ms = query.before_ms;
    recipient = query.recipient;
    template = query.template;
    id = id;
    limit = limit_of query.limit;
    offset = unwrap_or query.offset 0;
  }

  unfoldable pub list_emails :
      (ListEmailsParams → Result (List EmailRecord) ListEmailsError)
      → ListEmailsQuery
      → Result ListEmailsResponse AppError
  list_emails use_case query = elim (parse_id query.id) [
    | err e ↦ err e
    | ok id ↦ elim (use_case (emails_params query id)) [
      | err e ↦ err (list_emails_failed e)
      | ok emails ↦ ok (record {
        emails = map email_to_dto emails;
        limit = limit_of query.limit;
        offset = unwrap_or query.offset 0;
      })
    ]
  ]

  abbrev pub events_params : ListEventsQuery → Option EmailId → Option ErrorClass → ListEventsParams
  events_params query email_id class = record {
    email_id = email_id;
    event_type = query.event_type;
    sender_name = query.sender_name;
    error_class = class;
    after_ms = query.after_ms;
    before_ms = query.before_ms;
    limit = limit_of query.limit;
    offset = unwrap_or query.offset 0;
  }

  -- What both handlers of events do once they know the email, if one is asked for.
  unfoldable pub list_events_of :
      (ListEventsParams → Result (List EventRecord) ListEventsError)
      → ListEventsQuery
      → Option EmailId
      → Result ListEventsResponse AppError
  list_events_of use_case query email_id = elim (parse_error_class query.error_class) [
    | err e ↦ err e
    | ok class ↦ elim (use_case (events_params query email_id class)) [
      | err e ↦ err (list_events_failed e)
      | ok events ↦ ok (record {
        events = map event_to_dto events;
        limit = limit_of query.limit;
        offset = unwrap_or query.offset 0;
      })
    ]
  ]

  unfoldable pub list_events :
      (ListEventsParams → Result (List EventRecord) ListEventsError)
      → ListEventsQuery
      → Result ListEventsResponse AppError
  list_events use_case query = elim (parse_id query.email_id) [
    | err e ↦ err e
    | ok email_id ↦ list_events_of use_case query email_id
  ]

  unfoldable pub list_events_for_email :
      (ListEventsParams → Result (List EventRecord) ListEventsError)
      → String
      → ListEventsQuery
      → Result ListEventsResponse AppError
  list_events_for_email use_case email_id query = elim (parse_uuid email_id) [
    | err _ ↦ err invalid_email_id
    | ok uuid ↦ list_events_of use_case query (some (record { uuid = uuid }))
  ]
