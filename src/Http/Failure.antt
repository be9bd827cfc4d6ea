-- ===== src/Http/Failure.antt =====
-- adapter/inbound-http/src/error.rs: the errors of the handlers and the status that answers them.
use catapulte.Common.{ℕ, String}
use catapulte.ListSenders.{ListSendersError}
use catapulte.Port.Queries.{ListEmailsError, ListEventsError}
use catapulte.SubmitEmail.{
  SubmitEmailError, attachment_fetch, attachment_store, enqueue_failed, persist,
}
use catapulte.Http.Dto.{EnvelopeConversionError}

pub data AppError : Type 0 where
  bad_request : EnvelopeConversionError → AppError
  bad_request_raw : String → AppError
  submit : SubmitEmailError → AppError
  list_emails_failed : ListEmailsError → AppError
  list_events_failed : ListEventsError → AppError
  list_senders_failed : ListSendersError → AppError
  invalid_email_id : AppError
  invalid_error_class : AppError

-- `into_response`: the status and the message of the body.
unfoldable pub into_response : AppError → ℕ × String
into_response (bad_request _) = (400, "invalid request")
into_response (bad_request_raw _) = (400, "invalid request")
into_response invalid_email_id = (400, "invalid request")
into_response invalid_error_class = (400, "invalid request")
into_response (submit (attachment_fetch _)) = (400, "invalid request")
into_response (submit (persist _)) = (500, "internal error")
into_response (submit (enqueue_failed _)) = (500, "internal error")
into_response (submit (attachment_store _)) = (500, "internal error")
into_response (list_emails_failed _) = (500, "internal error")
into_response (list_events_failed _) = (500, "internal error")
into_response (list_senders_failed _) = (500, "internal error")
