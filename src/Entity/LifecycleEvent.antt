-- ===== src/Entity/LifecycleEvent.antt =====
-- domain/src/entity/lifecycle_event.rs: what is published about an email, and its JSON payload.
-- The payload is a flat JSON object: a list of its fields in the order in which they are written.
use catapulte.Common.{ℕ, String, List, [], ◌∷◌, Option, none, some}
use catapulte.Entity.{EmailId}
use catapulte.Entity.Sender.{SenderName}
use catapulte.Entity.ErrorClass
use catapulte.Entity.ErrorClass.{ErrorClass}

pub data LifecycleEvent : Type 0 where
  queued : EmailId → Option String → LifecycleEvent
  sending : EmailId → ℕ → Option String → LifecycleEvent
  sent : EmailId → SenderName → Option String → LifecycleEvent
  retrying : EmailId → ℕ → String → ErrorClass → Option SenderName → Option String → LifecycleEvent
  failed : EmailId → ℕ → String → ErrorClass → Option SenderName → Option String → LifecycleEvent

unfoldable pub event_type : LifecycleEvent → String
event_type (queued _ _) = "queued"
event_type (sending _ _ _) = "sending"
event_type (sent _ _ _) = "delivery.succeeded"
event_type (retrying _ _ _ _ _ _) = "retrying"
event_type (failed _ _ _ _ _ _) = "delivery.failed"

unfoldable pub email_id : LifecycleEvent → EmailId
email_id (queued id _) = id
email_id (sending id _ _) = id
email_id (sent id _ _) = id
email_id (retrying id _ _ _ _ _) = id
email_id (failed id _ _ _ _ _) = id

unfoldable pub sender_name : LifecycleEvent → Option SenderName
sender_name (queued _ _) = none
sender_name (sending _ _ _) = none
sender_name (sent _ name _) = some name
sender_name (retrying _ _ _ _ name _) = name
sender_name (failed _ _ _ _ name _) = name

unfoldable pub error_class : LifecycleEvent → Option ErrorClass
error_class (retrying _ _ _ class _ _) = some class
error_class (failed _ _ _ class _ _) = some class
error_class _ = none

-- A JSON value that is no array and no object.
pub data Scalar : Type 0 where
  null : Scalar
  number : ℕ → Scalar
  text : String → Scalar

-- An `Option<&str>` as a JSON value.
abbrev pub opt_text : Option String → Scalar
opt_text none = null
opt_text (some s) = text s

-- `sender_name.as_ref().map(SenderName::as_str)`
abbrev pub opt_name : Option SenderName → Scalar
opt_name none = null
opt_name (some n) = text n.as_str

-- The payload that `Retrying` and `Failed` share.
failure_payload :
    ℕ → String → ErrorClass → Option SenderName → Option String → List (String × Scalar)
failure_payload attempt reason class name cid =
    ("attempt", number attempt)
    ∷ ("reason", text reason)
    ∷ ("error_class", text (ErrorClass.as_str class))
    ∷ ("sender_name", opt_name name)
    ∷ ("correlation_id", opt_text cid)
    ∷ []

unfoldable pub payload : LifecycleEvent → List (String × Scalar)
unfolding failure_payload
payload (queued _ cid) = ("correlation_id", opt_text cid) ∷ []
payload (sending _ attempt cid) =
    ("attempt", number attempt) ∷ ("correlation_id", opt_text cid) ∷ []
payload (sent _ name cid) =
    ("sender_name", text name.as_str) ∷ ("correlation_id", opt_text cid) ∷ []
payload (retrying _ attempt reason class name cid) = failure_payload attempt reason class name cid
payload (failed _ attempt reason class name cid) = failure_payload attempt reason class name cid
