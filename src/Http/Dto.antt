-- ===== src/Http/Dto.antt =====
-- adapter/inbound-http/src/dto.rs: the requests that submit emails, and their conversion. The text that
-- an error prints about the foreign parser's own error is kept as its message.
use catapulte.Common.{
  ℕ, ◌*◌, String, List, [], ◌∷◌, Option, none, some, Result, ok, err, length, ltb, if◌then◌else◌,
}
use catapulte.Entity.{AnyError, Bytes, RecipientKind, Url, Variables}
use catapulte.Entity.Body
use catapulte.Entity.Body.{BodySource, InvalidPlainBody, try_new}
use catapulte.SubmitEmail.{AttachmentInput, SubmitEmailInput, inline, remote}

abbrev pub max_attachments_per_email : ℕ
max_attachments_per_email = 10

abbrev pub max_attachment_bytes : ℕ
max_attachment_bytes = 25 * 1024 * 1024

abbrev pub max_envelope_bytes : ℕ
max_envelope_bytes = 1024 * 1024

abbrev pub max_emails_per_batch : ℕ
max_emails_per_batch = 100

pub record AttachmentDto : Type 0 where
  pub filename : String
  pub content_type : String
  pub inline_base64 : Option String
  pub url : Option String

pub data RecipientKindDto : Type 0 where
  to cc bcc : RecipientKindDto

pub record RecipientDto : Type 0 where
  pub kind : RecipientKindDto
  pub address : String

pub data BodyDto : Type 0 where
  plain : Option String → Option String → BodyDto
  mjml_inline : String → BodyDto
  mjml_named : String → BodyDto
  mjml_remote : String → BodyDto

-- The part of a request that both forms share.
pub record EnvelopeCoreDto : Type 0 where
  pub idempotency_key : Option String
  pub correlation_id : Option String
  pub subject : Option String
  pub sender : String
  pub recipients : List RecipientDto
  pub body : BodyDto
  pub variables : Variables

pub record SubmitEmailRequest : Type 0 where
  pub idempotency_key : Option String
  pub correlation_id : Option String
  pub subject : Option String
  pub sender : String
  pub recipients : List RecipientDto
  pub body : BodyDto
  pub variables : Variables
  pub attachments : List AttachmentDto

pub data BodyConversionError : Type 0 where
  invalid_plain : InvalidPlainBody → BodyConversionError
  invalid_remote_url : AnyError → BodyConversionError

pub data EnvelopeConversionError : Type 0 where
  body_error : BodyConversionError → EnvelopeConversionError
  invalid_sender : AnyError → EnvelopeConversionError
  empty_recipients : EnvelopeConversionError
  invalid_recipient : AnyError → EnvelopeConversionError
  invalid_attachment_base64 : String → AnyError → EnvelopeConversionError
  invalid_attachment_shape : String → EnvelopeConversionError
  invalid_attachment_url : String → AnyError → EnvelopeConversionError
  too_many_attachments : EnvelopeConversionError
  attachment_too_large : String → EnvelopeConversionError

unfoldable pub kind_from_dto : RecipientKindDto → RecipientKind
kind_from_dto to = RecipientKind.to
kind_from_dto cc = RecipientKind.cc
kind_from_dto bcc = RecipientKind.bcc

-- The foreign parsers: whether a text is an address, base64 and urls.
pub record Parsers : Type 0 where
  pub parse_address : String → Result (Unit {0}) AnyError
  pub decode_base64 : String → Result Bytes AnyError
  pub parse_url : String → Result Url AnyError

abbrev pub input_of :
    EnvelopeCoreDto
    → List (RecipientKind × String)
    → BodySource
    → List AttachmentInput
    → SubmitEmailInput
input_of core recipients body attachments = record {
  idempotency_key = core.idempotency_key;
  correlation_id = core.correlation_id;
  subject = core.subject;
  sender = core.sender;
  recipients = recipients;
  body = body;
  variables = core.variables;
  attachments = attachments;
}

abbrev pub core_of : SubmitEmailRequest → EnvelopeCoreDto
core_of req = record {
  idempotency_key = req.idempotency_key;
  correlation_id = req.correlation_id;
  subject = req.subject;
  sender = req.sender;
  recipients = req.recipients;
  body = req.body;
  variables = req.variables;
}

module _ (parsers : Parsers) where
  unfoldable pub validate_sender : String → Result (Unit {0}) EnvelopeConversionError
  validate_sender sender = elim (parsers.parse_address sender) [
    | ok _ ↦ ok tt
    | err e ↦ err (invalid_sender e)
  ]

  -- The loop over the recipients; the first failure ends it.
  unfoldable pub collect_recipients :
      List RecipientDto → Result (List (RecipientKind × String)) EnvelopeConversionError
  collect_recipients [] = ok []
  collect_recipients (r ∷ rs) =
      let rest = collect_recipients rs in
      elim (parsers.parse_address r.address) [
        | err e ↦ err (invalid_recipient e)
        | ok _ ↦ elim rest [
          | ok others ↦ ok ((kind_from_dto r.kind, r.address) ∷ others)
          | err e ↦ err e
        ]
      ]

  unfoldable pub validate_recipients :
      List RecipientDto → Result (List (RecipientKind × String)) EnvelopeConversionError
  validate_recipients [] = err empty_recipients
  validate_recipients (r ∷ rs) = collect_recipients (r ∷ rs)

  -- `TryFrom<BodyDto> for BodySource`
  unfoldable pub body_from_dto : BodyDto → Result BodySource BodyConversionError
  body_from_dto (plain text html) = elim (try_new text html) [
    | ok p ↦ ok (BodySource.plain p)
    | err e ↦ err (invalid_plain e)
  ]
  body_from_dto (mjml_inline source) = ok (BodySource.mjml (Body.inline source))
  body_from_dto (mjml_named name) = ok (BodySource.mjml (Body.named name))
  body_from_dto (mjml_remote url) = elim (parsers.parse_url url) [
    | ok parsed ↦ ok (BodySource.mjml (Body.remote parsed))
    | err e ↦ err (invalid_remote_url e)
  ]

  -- An attachment that is sent in the request.
  unfoldable pub decode_inline :
      String → String → String → Result AttachmentInput EnvelopeConversionError
  decode_inline filename content_type b64 = elim (parsers.decode_base64 b64) [
    | err e ↦ err (invalid_attachment_base64 filename e)
    | ok decoded ↦
        if ltb max_attachment_bytes (length decoded)
        then err (attachment_too_large filename)
        else ok (inline filename content_type decoded)
  ]

  -- An attachment to fetch.
  unfoldable pub parse_remote :
      String → String → String → Result AttachmentInput EnvelopeConversionError
  parse_remote filename content_type raw_url = elim (parsers.parse_url raw_url) [
    | err e ↦ err (invalid_attachment_url filename e)
    | ok parsed ↦ ok (remote filename content_type parsed)
  ]

  -- The `match` on the two sources that an attachment may have.
  unfoldable pub attachment_from :
      String
      → String
      → Option String
      → Option String
      → Result AttachmentInput EnvelopeConversionError
  attachment_from filename content_type (some b64) none = decode_inline filename content_type b64
  attachment_from filename content_type none (some raw_url) =
      parse_remote filename content_type raw_url
  attachment_from filename content_type none none = err (invalid_attachment_shape filename)
  attachment_from filename content_type (some _) (some _) = err (invalid_attachment_shape filename)

  unfoldable pub attachment_dto_to_input :
      AttachmentDto → Result AttachmentInput EnvelopeConversionError
  attachment_dto_to_input a = attachment_from a.filename a.content_type a.inline_base64 a.url

  -- The loop over the attachments; the first failure ends it.
  unfoldable pub collect_attachments :
      List AttachmentDto → Result (List AttachmentInput) EnvelopeConversionError
  collect_attachments [] = ok []
  collect_attachments (a ∷ rest) =
      let others = collect_attachments rest in
      elim (attachment_dto_to_input a) [
        | err e ↦ err e
        | ok input ↦ elim others [ ok inputs ↦ ok (input ∷ inputs) | err e ↦ err e ]
      ]

  -- The checks that both forms share: the recipients and the body of a valid request.
  unfoldable pub validate_envelope :
      EnvelopeCoreDto → Result (List (RecipientKind × String) × BodySource) EnvelopeConversionError
  validate_envelope core = elim (validate_sender core.sender) [
    | err e ↦ err e
    | ok _ ↦ elim (validate_recipients core.recipients) [
      | err e ↦ err e
      | ok recipients ↦ elim (body_from_dto core.body) [
        | err e ↦ err (body_error e)
        | ok body ↦ ok (recipients, body)
      ]
    ]
  ]

  -- `EnvelopeCoreDto::into_submit_input`
  unfoldable pub core_into_submit_input :
      EnvelopeCoreDto → List AttachmentInput → Result SubmitEmailInput EnvelopeConversionError
  core_into_submit_input core attachments = elim (validate_envelope core) [
    | err e ↦ err e
    | ok (recipients, body) ↦ ok (input_of core recipients body attachments)
  ]

  -- `SubmitEmailRequest::into_submit_input`
  unfoldable pub into_submit_input :
      SubmitEmailRequest → Result SubmitEmailInput EnvelopeConversionError
  into_submit_input req = elim (validate_envelope (core_of req)) [
    | err e ↦ err e
    | ok (recipients, body) ↦
        if ltb max_attachments_per_email (length req.attachments)
        then err too_many_attachments
        else elim (collect_attachments req.attachments) [
          | err e ↦ err e
          | ok attachments ↦ ok (input_of (core_of req) recipients body attachments)
        ]
  ]
