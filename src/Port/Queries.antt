-- ===== src/Port/Queries.antt =====
-- domain/src/port/{email_repository,event_repository,health}.rs and the use cases over them,
-- domain/src/use_case/{list_emails,list_events,check_readiness}.rs: what is read back, and the
-- parameters of a listing. An event's id is the number that its 16 bytes make.
use catapulte.Common.{ℕ, String, List, Option, Result, ok, err}
use catapulte.Common.Int.{ℤ}
use catapulte.Entity.{AnyError, EmailId, RecipientKind, Uuid}
use catapulte.Entity.ErrorClass.{ErrorClass}
use catapulte.Entity.LifecycleEvent.{Scalar}
use catapulte.Entity.Sender.{SenderName}
use catapulte.Port.Types.{EmailRepositoryError}

pub data EmailStatus : Type 0 where
  queued sent failed : EmailStatus

pub record ListEmailsParams : Type 0 where
  pub status : Option EmailStatus
  pub after_ms : Option ℤ
  pub before_ms : Option ℤ
  pub recipient : Option String
  pub template : Option String
  pub id : Option EmailId
  pub limit : ℕ
  pub offset : ℕ

pub record EmailRecord : Type 0 where
  pub id : EmailId
  pub idempotency_key : Option String
  pub subject : Option String
  pub sender : String
  pub recipients : List (RecipientKind × String)
  pub created_at_ms : ℤ
  pub status : EmailStatus

pub record ListEventsParams : Type 0 where
  pub email_id : Option EmailId
  pub event_type : Option String
  pub sender_name : Option String
  pub error_class : Option ErrorClass
  pub after_ms : Option ℤ
  pub before_ms : Option ℤ
  pub limit : ℕ
  pub offset : ℕ

pub record EventRecord : Type 0 where
  pub id : Uuid
  pub email_id : EmailId
  pub event_type : String
  pub payload : Option (List (String × Scalar))
  pub sender_name : Option SenderName
  pub error_class : Option String
  pub created_at_ms : ℤ

pub data EventRepositoryError : Type 0 where
  storage : AnyError → EventRepositoryError

-- The errors of the two use cases, which pass the repository's on.
pub data ListEmailsError : Type 0 where
  repository : EmailRepositoryError → ListEmailsError

pub data ListEventsError : Type 0 where
  repository : EventRepositoryError → ListEventsError

unfoldable pub list_emails :
    Result (List EmailRecord) EmailRepositoryError → Result (List EmailRecord) ListEmailsError
list_emails (ok records) = ok records
list_emails (err e) = err (ListEmailsError.repository e)

unfoldable pub list_events :
    Result (List EventRecord) EventRepositoryError → Result (List EventRecord) ListEventsError
list_events (ok records) = ok records
list_events (err e) = err (ListEventsError.repository e)

-- health.rs
pub data HealthCheckError : Type 0 where
  unavailable : AnyError → HealthCheckError

pub data Readiness : Type 0 where
  ready not_ready : Readiness

-- `check_readiness`, from the outcome of the check.
unfoldable pub check_readiness : Result (Unit {0}) HealthCheckError → Readiness
check_readiness (ok _) = ready
check_readiness (err _) = not_ready
