-- ===== src/Http/Emails.antt =====
-- adapter/inbound-http/src/routes/emails.rs: the handlers that submit emails. Which form a request has,
-- by its content type, and the reading of a JSON body are axum's. `size` says how many bytes each poll
-- of a field hands over.
use catapulte.Common.{
  ℕ, suc, String, List, [], ◌∷◌, ◌++◌, Option, none, some, Result, ok, err, length, ltb, leb,
  str_eq, if◌then◌else◌,
}
use catapulte.Entity.{AnyError, Bytes, EmailId, Uuid}
use catapulte.Port.Call.{Exec, Oracle, ret, ◌>>=◌}
use catapulte.SubmitEmail.{AttachmentInput, SubmitEmailInput, execute, inline}
use catapulte.Http.Dto.{
  EnvelopeConversionError, EnvelopeCoreDto, Parsers, SubmitEmailRequest, attachment_too_large,
  body_error, core_into_submit_input, empty_recipients, into_submit_input,
  invalid_attachment_base64, invalid_attachment_shape, invalid_attachment_url, invalid_plain,
  invalid_recipient, invalid_remote_url, invalid_sender, max_attachment_bytes,
  max_attachments_per_email, max_emails_per_batch, max_envelope_bytes, too_many_attachments,
}
use catapulte.Http.Failure.{AppError, bad_request, bad_request_raw, submit}
use catapulte.Http.Reader.{Source, new, read_to_end}

-- A field of a multipart body.
pub record Field : Type 0 where
  pub name : Option String
  pub file_name : Option String
  pub content_type : Option String
  pub content : Source

-- A request by its form: the outcome of reading the whole body, or of each `next_field`.
pub data Request : Type 0 where
  json : Result Bytes AnyError → Request
  multipart : List (Result Field AnyError) → Request

pub data BatchItemResultDto : Type 0 where
  accepted : String → BatchItemResultDto
  rejected : String → BatchItemResultDto

-- `EnvelopeConversionError::to_string`
unfoldable pub message : EnvelopeConversionError → String
message (body_error (invalid_plain _)) = "invalid plain body"
message (body_error (invalid_remote_url _)) = "invalid remote url"
message (invalid_sender _) = "invalid sender address"
message empty_recipients = "recipients must not be empty"
message (invalid_recipient _) = "invalid recipient address"
message (invalid_attachment_base64 _ _) = "invalid attachment base64"
message (invalid_attachment_shape _) =
    "invalid attachment shape: exactly one of inline_base64 or url must be set"
message (invalid_attachment_url _ _) = "invalid attachment url"
message too_many_attachments = "too many attachments"
message (attachment_too_large _) = "attachment too large"

-- What the handlers use of the libraries.
pub record Codec : Type 0 where
  pub parsers : Parsers
  pub parse_request : Bytes → Result SubmitEmailRequest AnyError
  pub parse_core : Bytes → Result EnvelopeCoreDto AnyError
  pub print_uuid : Uuid → String
  pub size : ℕ → ℕ

-- What is read of the parts of a multipart body: the envelope and the attachments so far.
abbrev pub Parts : Type 0
Parts = Option EnvelopeCoreDto × List AttachmentInput

-- `name().unwrap_or("")`
abbrev pub name_of : Option String → String
name_of (some n) = n
name_of none = ""

-- `content_type().unwrap_or("application/octet-stream")`
abbrev pub content_type_of : Option String → String
content_type_of (some t) = t
content_type_of none = "application/octet-stream"

module _ (c : Codec) where
  -- `handle_json`; the error's own text is left out of a message.
  unfoldable pub handle_json : Result Bytes AnyError → Result SubmitEmailInput AppError
  handle_json (err _) = err (bad_request_raw "failed to read request body")
  handle_json (ok body) = elim (c.parse_request body) [
    | err _ ↦ err (bad_request_raw "invalid JSON")
    | ok req ↦ elim (into_submit_input c.parsers req) [
      | ok input ↦ ok input
      | err e ↦ err (bad_request e)
    ]
  ]

  -- `read_to_end` through a limit, with more fuel than the field has bytes.
  unfoldable pub read_field : ℕ → Source → Result Bytes AnyError
  read_field limit s = elim (read_to_end c.size (suc (length s.left)) (new s limit) []) [
    | some r ↦ r
    | none ↦ err "not read to the end"
  ]

  unfoldable pub envelope_field : Field → Parts → Result Parts AppError
  envelope_field field parts = elim (read_field max_envelope_bytes field.content) [
    | err _ ↦ err (bad_request_raw "envelope field exceeds size limit")
    | ok buf ↦ elim (c.parse_core buf) [
      | err _ ↦ err (bad_request_raw "invalid envelope JSON")
      | ok dto ↦ ok (some dto, parts.1)
    ]
  ]

  -- An attachment with a file name, below the limit on their number.
  unfoldable pub named_attachment : String → Field → Parts → Result Parts AppError
  named_attachment filename field parts = elim (read_field max_attachment_bytes field.content) [
    | err _ ↦ err (bad_request_raw "attachment too large or read error")
    | ok buf ↦
        ok (parts.0, parts.1 ++ inline filename (content_type_of field.content_type) buf ∷ [])
  ]

  unfoldable pub attachment_field : Field → Parts → Result Parts AppError
  attachment_field field parts =
      if leb max_attachments_per_email (length parts.1)
      then err (bad_request_raw "too many attachments")
      else elim field.file_name [
        | none ↦ err (bad_request_raw "attachment field missing filename in Content-Disposition")
        | some filename ↦ named_attachment filename field parts
      ]

  -- The `match` on a field's name.
  unfoldable pub read_part : Field → Parts → Result Parts AppError
  read_part field parts =
      if str_eq (name_of field.name) "envelope"
      then envelope_field field parts
      else if str_eq (name_of field.name) "attachment"
      then attachment_field field parts
      else ok parts

  -- The `while let` loop over the fields.
  unfoldable pub read_parts : List (Result Field AnyError) → Parts → Result Parts AppError
  read_parts [] parts = ok parts
  read_parts (err _ ∷ rest) parts = err (bad_request_raw "multipart read error")
  read_parts (ok field ∷ rest) parts = elim (read_part field parts) [
    | err e ↦ err e
    | ok more ↦ read_parts rest more
  ]

  -- What follows the loop.
  unfoldable pub finish_parts : Parts → Result SubmitEmailInput AppError
  finish_parts (none, attachments) = err (bad_request_raw "missing required 'envelope' field")
  finish_parts (some core, attachments) = elim (core_into_submit_input c.parsers core attachments) [
    | ok input ↦ ok input
    | err e ↦ err (bad_request e)
  ]

  unfoldable pub handle_multipart : List (Result Field AnyError) → Result SubmitEmailInput AppError
  handle_multipart fields = elim (read_parts fields (none, [])) [
    | err e ↦ err e
    | ok parts ↦ finish_parts parts
  ]

  unfoldable pub request_input : Request → Result SubmitEmailInput AppError
  request_input (json body) = handle_json body
  request_input (multipart fields) = handle_multipart fields

  module _ (o : Oracle) where
    -- `execute(input).await?`
    unfoldable pub execute_input : EmailId → SubmitEmailInput → Exec (Result EmailId AppError)
    execute_input id input = do
      result ← execute o id input
      elim result [ ok done ↦ ret (ok done) | err e ↦ ret (err (submit e)) ]

    unfoldable pub submit_email : EmailId → Request → Exec (Result EmailId AppError)
    submit_email id request = elim (request_input request) [
      | err e ↦ ret (err e)
      | ok input ↦ execute_input id input
    ]

    -- The loop over the emails of a batch; `ids` are the ids that it draws.
    unfoldable pub submit_each :
        (ℕ → EmailId)
        → ℕ
        → List SubmitEmailRequest
        → List BatchItemResultDto
        → Exec (Result (List BatchItemResultDto) AppError)
    submit_each ids n [] results = ret (ok results)
    submit_each ids n (req ∷ rest) results = elim (into_submit_input c.parsers req) [
      | err e ↦ submit_each ids n rest (results ++ rejected (message e) ∷ [])
      | ok input ↦ do
        done ← execute_input (ids n) input
        elim done [
          | err e ↦ ret (err e)
          | ok id ↦ submit_each ids (suc n) rest (results ++ accepted (c.print_uuid id.uuid) ∷ [])
        ]
    ]

    unfoldable pub submit_email_batch :
        (ℕ → EmailId) → List SubmitEmailRequest → Exec (Result (List BatchItemResultDto) AppError)
    submit_email_batch ids emails =
        if ltb max_emails_per_batch (length emails)
        then ret (err (bad_request_raw "batch exceeds maximum of 100 emails"))
        else submit_each ids 0 emails []
