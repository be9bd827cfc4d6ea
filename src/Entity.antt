-- ===== src/Entity.antt =====
-- domain/src/entity: the values that the services pass around. A uuid is the number that its 128
-- bits make, text is `String`. The code hands the values of these foreign types on without looking
-- inside: a `url::Url` and the JSON map of template variables are kept as their text, `Bytes` is the
-- list of its bytes, and an `anyhow::Error` is the message that it prints.
pub mod Body
pub mod Sender
pub mod ErrorClass
pub mod LifecycleEvent
use catapulte.Common.{ℕ, String, List, Option}
use Body.{BodySource}

abbrev pub Uuid : Type 0
Uuid = ℕ

abbrev pub Url : Type 0
Url = String

abbrev pub Variables : Type 0
Variables = String

abbrev pub Bytes : Type 0
Bytes = List ℕ

abbrev pub AnyError : Type 0
AnyError = String

-- entity/email.rs, with `genid!` of macros.rs
pub record EmailId : Type 0 where
  pub uuid : Uuid

pub data RecipientKind : Type 0 where
  to cc bcc : RecipientKind

-- entity/attachment.rs
pub record BlobRef : Type 0 where
  pub backend : String
  pub key : String

pub record AttachmentRef : Type 0 where
  pub filename : String
  pub content_type : String
  pub size_bytes : ℕ
  pub blob : BlobRef

pub record ResolvedAttachment : Type 0 where
  pub filename : String
  pub content_type : String
  pub bytes : Bytes

-- entity/envelope.rs
pub record Envelope : Type 0 where
  pub idempotency_key : Option String
  pub correlation_id : Option String
  pub subject : Option String
  pub sender : String
  pub recipients : List (RecipientKind × String)
  pub body : BodySource
  pub variables : Variables
  pub attachments : List AttachmentRef
