-- ===== src/Port/Types.antt =====
-- domain/src/port/*.rs: the values and the errors of the port traits.
use catapulte.Common.{ℕ, String, List, Option, none, some, Bool, true, false, Result}
use catapulte.Entity.{
  AnyError, Bytes, BlobRef, EmailId, Envelope, RecipientKind, ResolvedAttachment,
}
use catapulte.Entity.Body.{RenderedBody}
use catapulte.Entity.Sender.{SenderName}

-- attachment_store.rs. A reader is known by the outcome of reading it to its end.
abbrev pub AttachmentReader : Type 0
AttachmentReader = Result Bytes AnyError

pub record PutResult : Type 0 where
  pub blob : BlobRef
  pub size_bytes : ℕ

pub data AttachmentStoreError : Type 0 where
  io : AnyError → AttachmentStoreError
  not_found : AttachmentStoreError

-- attachment_fetcher.rs
pub data AttachmentFetchError : Type 0 where
  scheme_not_allowed : String → AttachmentFetchError
  domain_not_allowed : String → AttachmentFetchError
  too_large : AttachmentFetchError
  fetch : AnyError → AttachmentFetchError

-- email_queue.rs. A token is its bytes.
pub record AckToken : Type 0 where
  pub into_bytes : List ℕ

pub record TraceCarrier : Type 0 where
  pub into_pairs : List (String × String)

pub record DequeuedEmail : Type 0 where
  pub id : EmailId
  pub envelope : Envelope
  pub attempt : ℕ
  pub token : AckToken
  pub trace : TraceCarrier

pub data EmailQueueError : Type 0 where
  storage : AnyError → EmailQueueError

-- email_repository.rs
pub data SaveResult : Type 0 where
  created : EmailId → SaveResult
  duplicate : EmailId → SaveResult

pub data EmailRepositoryError : Type 0 where
  storage : AnyError → EmailRepositoryError

-- event_publisher.rs
pub data EventPublisherError : Type 0 where
  publish : AnyError → EventPublisherError

-- sender_usage.rs
pub record SenderStats : Type 0 where
  pub name : SenderName
  pub sent_in_range : ℕ
  pub failed_in_range : ℕ

pub data SenderUsageError : Type 0 where
  storage : AnyError → SenderUsageError

-- template_resolver.rs, template_interpolator.rs, template_renderer.rs
pub data ResolveError : Type 0 where
  not_found : String → ResolveError
  domain_not_allowed : String → ResolveError
  fetch : String → AnyError → ResolveError

pub data InterpolateError : Type 0 where
  engine : AnyError → InterpolateError

pub data RenderError : Type 0 where
  mjml : AnyError → RenderError

-- email_sender.rs
pub data SendError : Type 0 where
  send : SenderName → AnyError → SendError
  no_matching_route : String → SendError

unfoldable pub sender_name : SendError → Option SenderName
sender_name (send name _) = some name
sender_name (no_matching_route _) = none

unfoldable pub is_transient : SendError → Bool
is_transient (send _ _) = true
is_transient (no_matching_route _) = false

pub record OutboundEmail : Type 0 where
  pub sender : String
  pub subject : Option String
  pub recipients : List (RecipientKind × String)
  pub body : RenderedBody
  pub attachments : List ResolvedAttachment
