-- ===== src/Worker.antt =====
-- adapter/inbound-worker/src/worker.rs: what a worker does with one email that it has taken from
-- the queue. Tracing is left out. The use case is the parameter `process`, as the worker is generic
-- in it, and `reason` is how an error prints itself.
pub mod Loop
pub mod Drain
pub mod Settling
pub mod Handling
pub mod Backoff
use catapulte.Common.{
  ℕ, ◌+◌, ◌-◌, ◌*◌, ◌%◌, ◌^◌, min, String, List, [], ◌∷◌, Bool, true, false, not, ◌||◌, Option,
  Result, ok, err, leb, if◌then◌else◌,
}
use catapulte.Entity.{AttachmentRef, EmailId, Envelope}
use catapulte.Entity.Sender.{SenderName}
use catapulte.Entity.LifecycleEvent.{LifecycleEvent, sending, sent, retrying, failed}
use catapulte.Port.Types.{AckToken, is_transient}
use catapulte.Port.Call.{
  Exec, Oracle, ask, ret, ◌>>=◌, ◌>>◌, ack, delete_blob, nack, publish, set_attachments,
}
use catapulte.Processing.{ProcessQueuedEmailError, send_failed, sender_name, error_class}

abbrev pub max_attempts : ℕ
max_attempts = 3

-- `backoff`, in seconds. `attempt` is a u32; the shift takes its amount modulo 64, and the product
-- wraps at 2 ^ 64, as in a build without overflow checks.
unfoldable pub backoff : ℕ → ℕ
backoff attempt = min (30 * 2 ^ ((attempt - 1) % 64) % 2 ^ 64) 3600

-- `matches!(&e, ProcessQueuedEmailError::Send(s) if !s.is_transient())`
unfoldable pub is_permanent : ProcessQueuedEmailError → Bool
unfolding is_transient
is_permanent (send_failed s) = not (is_transient s)
is_permanent _ = false

unfoldable pub is_terminal : ProcessQueuedEmailError → ℕ → Bool
is_terminal e attempt = is_permanent e || leb max_attempts attempt

module _ (reason : ProcessQueuedEmailError → String) where
  unfoldable pub failed_event :
      EmailId → ℕ → Option String → ProcessQueuedEmailError → LifecycleEvent
  failed_event id attempt cid e = failed id attempt (reason e) (error_class e) (sender_name e) cid

  unfoldable pub retrying_event :
      EmailId → ℕ → Option String → ProcessQueuedEmailError → LifecycleEvent
  retrying_event id attempt cid e =
      retrying id attempt (reason e) (error_class e) (sender_name e) cid

module _ (o : Oracle) where
  -- The blobs are deleted one by one; a failure is logged.
  unfoldable pub clean_up : List AttachmentRef → Exec (Unit {0})
  clean_up [] = ret tt
  clean_up (att ∷ rest) = do ask o (delete_blob att.blob); clean_up rest

  -- The branch of a delivered email; nothing more is done if the acknowledgement fails.
  unfoldable pub on_delivered :
      EmailId → Option String → List AttachmentRef → AckToken → SenderName → Exec (Unit {0})
  on_delivered id cid attachments token name = do
    acked ← ask o (ack token)
    elim acked [
      | err _ ↦ ret tt
      | ok _ ↦ do
        ask o (set_attachments id [])
        clean_up attachments
        ask o (publish (sent id name cid))
        ret tt
    ]

  module _ (reason : ProcessQueuedEmailError → String) where
    -- The branch of an email that could not be processed.
    unfoldable pub on_error :
        EmailId → ℕ → Option String → AckToken → ProcessQueuedEmailError → Exec (Unit {0})
    on_error id attempt cid token e = elim (is_terminal e attempt) [
      | true ↦ do
        acked ← ask o (ack token)
        elim acked [
          | err _ ↦ ret tt
          | ok _ ↦ do ask o (publish (failed_event reason id attempt cid e)); ret tt
        ]
      | false ↦ do
        nacked ← ask o (nack token (backoff attempt))
        elim nacked [
          | err _ ↦ ret tt
          | ok _ ↦ do ask o (publish (retrying_event reason id attempt cid e)); ret tt
        ]
    ]

    unfoldable pub process_one :
        (Envelope → Exec (Result SenderName ProcessQueuedEmailError))
        → EmailId
        → Envelope
        → ℕ
        → AckToken
        → Exec (Unit {0})
    process_one process id env attempt token = do
      ask o (publish (sending id attempt env.correlation_id))
      result ← process env
      elim result [
        | ok name ↦ on_delivered id env.correlation_id env.attachments token name
        | err e ↦ on_error id attempt env.correlation_id token e
      ]
