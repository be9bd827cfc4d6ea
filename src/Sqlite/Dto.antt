-- ===== src/Sqlite/Dto.antt =====
-- adapter/outbound-sqlite/src/dto.rs: the values in which an email is stored. Their JSON text is not
-- modelled: a column holds the value that serde reads back. Parsing a url is the parameter `parse_url`.
use catapulte.Common.{ℕ, String, List, [], ◌∷◌, Option, Result, ok, err}
use catapulte.Entity.{AnyError, AttachmentRef, RecipientKind, Url}
use catapulte.Entity.Body.{BodySource, try_new}
use catapulte.Entity.Body

pub data BodySourceDto : Type 0 where
  plain : Option String → Option String → BodySourceDto
  mjml_inline : String → BodySourceDto
  mjml_named : String → BodySourceDto
  mjml_remote : String → BodySourceDto

-- `From<&BodySource>`; `Url::to_string` gives the text that stands for the url.
unfoldable pub body_to_dto : BodySource → BodySourceDto
body_to_dto (BodySource.plain p) = plain p.text p.html
body_to_dto (BodySource.mjml (Body.inline s)) = mjml_inline s
body_to_dto (BodySource.mjml (Body.named n)) = mjml_named n
body_to_dto (BodySource.mjml (Body.remote u)) = mjml_remote u

pub data RecipientKindDto : Type 0 where
  to cc bcc : RecipientKindDto

unfoldable pub kind_to_dto : RecipientKind → RecipientKindDto
kind_to_dto RecipientKind.to = RecipientKindDto.to
kind_to_dto RecipientKind.cc = RecipientKindDto.cc
kind_to_dto RecipientKind.bcc = RecipientKindDto.bcc

unfoldable pub kind_from_dto : RecipientKindDto → RecipientKind
kind_from_dto RecipientKindDto.to = RecipientKind.to
kind_from_dto RecipientKindDto.cc = RecipientKind.cc
kind_from_dto RecipientKindDto.bcc = RecipientKind.bcc

pub record RecipientDto : Type 0 where
  pub kind : RecipientKindDto
  pub address : String

unfoldable pub recipients_to_dto : List (RecipientKind × String) → List RecipientDto
recipients_to_dto [] = []
recipients_to_dto ((k, a) ∷ rest) =
    record { kind = kind_to_dto k; address = a } ∷ recipients_to_dto rest

unfoldable pub recipients_from_dto : List RecipientDto → List (RecipientKind × String)
recipients_from_dto [] = []
recipients_from_dto (d ∷ rest) = (kind_from_dto d.kind, d.address) ∷ recipients_from_dto rest

pub record BlobRefDto : Type 0 where
  pub backend : String
  pub key : String

pub record AttachmentRefDto : Type 0 where
  pub filename : String
  pub content_type : String
  pub size_bytes : ℕ
  pub blob : BlobRefDto

unfoldable pub attachment_to_dto : AttachmentRef → AttachmentRefDto
attachment_to_dto a = record {
  filename = a.filename;
  content_type = a.content_type;
  size_bytes = a.size_bytes;
  blob = record { backend = a.blob.backend; key = a.blob.key };
}

unfoldable pub attachment_from_dto : AttachmentRefDto → AttachmentRef
attachment_from_dto dto = record {
  filename = dto.filename;
  content_type = dto.content_type;
  size_bytes = dto.size_bytes;
  blob = record { backend = dto.blob.backend; key = dto.blob.key };
}

pub record EnvelopeBodyDto : Type 0 where
  pub source : BodySourceDto
  pub attachments : List AttachmentRefDto

-- What is read back from the `body` column: rows of an older version hold the body alone.
pub data EnvelopeBodyDtoDeser : Type 0 where
  with_attachments : BodySourceDto → List AttachmentRefDto → EnvelopeBodyDtoDeser
  legacy : BodySourceDto → EnvelopeBodyDtoDeser

unfoldable pub split : EnvelopeBodyDtoDeser → BodySourceDto × List AttachmentRefDto
split (with_attachments source attachments) = (source, attachments)
split (legacy source) = (source, [])

module _ (parse_url : String → Result Url AnyError) where
  -- `TryFrom<BodySourceDto>`, with the context that an error prints.
  unfoldable pub body_from_dto : BodySourceDto → Result BodySource AnyError
  body_from_dto (plain text html) = elim (try_new text html) [
    | ok p ↦ ok (BodySource.plain p)
    | err _ ↦ err "invalid plain body"
  ]
  body_from_dto (mjml_inline source) = ok (BodySource.mjml (Body.inline source))
  body_from_dto (mjml_named name) = ok (BodySource.mjml (Body.named name))
  body_from_dto (mjml_remote url) = elim (parse_url url) [
    | ok u ↦ ok (BodySource.mjml (Body.remote u))
    | err _ ↦ err "invalid remote url"
  ]
