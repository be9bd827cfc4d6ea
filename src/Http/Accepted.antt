-- ===== src/Http/Accepted.antt =====
-- What every request that reaches the use case has passed.
use catapulte.Common.{
  ℕ, suc, ◌≤◌, String, List, [], ◌∷◌, ◌++◌, ◌≡◌, refl, sym, ap, subst, Option, none, some, Result,
  ok, err, length, length-append, ltb, leb, str_eq, All, arith, ok-step, ok-else, ok-either,
  ok-some, ok-injective,
}
use catapulte.Entity.{AnyError, Bytes, RecipientKind}
use catapulte.Entity.Body.{BodySource}
use catapulte.SubmitEmail.{AttachmentInput, SubmitEmailInput, inline, remote, stream}
use catapulte.Http.Dto.{
  AttachmentDto, EnvelopeCoreDto, Parsers, RecipientDto, SubmitEmailRequest,
  attachment_dto_to_input, attachment_from, body_from_dto, collect_attachments, collect_recipients,
  core_into_submit_input, core_of, decode_inline, into_submit_input, max_attachment_bytes,
  max_attachments_per_email, max_envelope_bytes, parse_remote, validate_envelope,
  validate_recipients, validate_sender,
}
use catapulte.Http.Reader.{Source}
use catapulte.Http.Reading.{read_all, read_to_end_lem}
use catapulte.Http.Emails.{
  Codec, Field, Parts, Request, attachment_field, envelope_field, finish_parts, handle_json,
  handle_multipart, json, multipart, name_of, content_type_of, named_attachment, read_field,
  read_part, read_parts, request_input,
}

-- What is sent in the request is not above the limit.
abbrev pub IsSmall : AttachmentInput → Type 0
IsSmall (inline _ _ bytes) = length bytes ≤ max_attachment_bytes
IsSmall (stream _ _ _) = ⊥
IsSmall (remote _ _ _) = Unit {0}

abbrev pub AreFew : List AttachmentInput → Type 0
AreFew as' = (length as' ≤ max_attachments_per_email) × All IsSmall as'

module _ (parsers : Parsers) where
  abbrev pub IsAddress : String → Type 0
  IsAddress a = parsers.parse_address a ≡ ok tt

  abbrev pub AreReached : List (RecipientKind × String) → Type 0
  AreReached rs = (1 ≤ length rs) × All (λ r. IsAddress r.1) rs

  -- Valid addresses, at least one of them a recipient's, and few attachments that are not too large.
  abbrev pub IsAccepted : SubmitEmailInput → Type 0
  IsAccepted input = IsAddress input.sender × AreReached input.recipients × AreFew input.attachments

  collect_recipients-All :
      (ds : List RecipientDto) (rs : List (RecipientKind × String))
      → collect_recipients parsers ds ≡ ok rs
      → All (λ r. IsAddress r.1) rs × (length rs ≡ length ds)
  unfolding collect_recipients
  collect_recipients-All [] rs e = rw (sym (ok-injective [] rs e)) (tt, refl)
  collect_recipients-All (d ∷ ds) rs e =
      let (_, parsed, more) = ok-step (parsers.parse_address d.address) _ _ rs e in
      let (others, collected, last) = ok-step (collect_recipients parsers ds) _ _ rs more in
      let (all, same) = collect_recipients-All ds others collected in
      rw (sym (ok-injective _ rs last)) ((parsed, all), ap (λ n. suc n) same)

  validate_recipients-AreReached :
      (ds : List RecipientDto) (rs : List (RecipientKind × String))
      → validate_recipients parsers ds ≡ ok rs
      → AreReached rs
  unfolding validate_recipients
  validate_recipients-AreReached [] rs e = cc
  validate_recipients-AreReached (d ∷ ds) rs e =
      let (all, same) = collect_recipients-All (d ∷ ds) rs e in (omega (arith, same), all)

  validate_envelope-AreReached :
      (core : EnvelopeCoreDto) (rs : List (RecipientKind × String)) (body : BodySource)
      → validate_envelope parsers core ≡ ok (rs, body)
      → IsAddress core.sender × AreReached rs
  unfolding validate_envelope validate_sender
  validate_envelope-AreReached core rs body e =
      let (u, sender, more) = ok-step (validate_sender parsers core.sender) _ _ (rs, body) e in
      let (v, parsed, _) = ok-step (parsers.parse_address core.sender) _ _ u sender in
      let (rs', reached, last) = ok-step (validate_recipients parsers core.recipients) _ _ _ more in
      let (body', _, same) = ok-step (body_from_dto parsers core.body) _ _ (rs, body) last in
      (
        parsed,
        subst AreReached (ap (λ p. p.0) (ok-injective (rs', body') (rs, body) same))
            (validate_recipients-AreReached core.recipients rs' reached),
      )

  attachment_from-IsSmall :
      (filename content_type : String) (b64 url : Option String) (a : AttachmentInput)
      → attachment_from parsers filename content_type b64 url ≡ ok a
      → IsSmall a
  unfolding attachment_from decode_inline parse_remote
  attachment_from-IsSmall f t (some b) none a e =
      let (bytes, decoded, more) = ok-step (parsers.decode_base64 b) _ _ a e in
      let (small, same) = ok-else (ltb max_attachment_bytes (length bytes)) _ _ a more in
      subst IsSmall (ok-injective (inline f t bytes) a same) (ground (arith, small))
  attachment_from-IsSmall f t none (some u) a e =
      let (url, parsed, more) = ok-step (parsers.parse_url u) _ _ a e in
      rw (sym (ok-injective _ a more)) tt
  attachment_from-IsSmall f t none none a e = cc
  attachment_from-IsSmall f t (some _) (some _) a e = cc

  collect_attachments-All :
      (ds : List AttachmentDto) (as' : List AttachmentInput)
      → collect_attachments parsers ds ≡ ok as'
      → All IsSmall as' × (length as' ≡ length ds)
  unfolding collect_attachments attachment_dto_to_input
  collect_attachments-All [] as' e = rw (sym (ok-injective [] as' e)) (tt, refl)
  collect_attachments-All (d ∷ ds) as' e =
      let (a, first, more) =
        ok-step (attachment_from parsers d.filename d.content_type d.inline_base64 d.url) _ _ as'
          e in
      let (others, collected, last) = ok-step (collect_attachments parsers ds) _ _ as' more in
      let (all, same) = collect_attachments-All ds others collected in
      rw (sym (ok-injective _ as' last)) (
        (attachment_from-IsSmall d.filename d.content_type d.inline_base64 d.url a first, all),
        ap (λ n. suc n) same,
      )

  into_submit_input-IsAccepted :
      (req : SubmitEmailRequest) (input : SubmitEmailInput)
      → into_submit_input parsers req ≡ ok input
      → IsAccepted input
  unfolding into_submit_input
  into_submit_input-IsAccepted req input e =
      let (envelope, valid, more) = ok-step (validate_envelope parsers (core_of req)) _ _ input e in
      let (sender, reached) =
        validate_envelope-AreReached (core_of req) envelope.0 envelope.1 valid in
      let (few, rest) =
        ok-else (ltb max_attachments_per_email (length req.attachments)) _ _ input more in
      let (as', collected, same) =
        ok-step (collect_attachments parsers req.attachments) _ _ input rest in
      let (small, number) = collect_attachments-All req.attachments as' collected in
      subst IsAccepted (ok-injective _ input same)
        (sender, reached, (ground (arith, few, number), small))

  core_into_submit_input-IsAccepted :
      (core : EnvelopeCoreDto) (as' : List AttachmentInput) (input : SubmitEmailInput)
      → AreFew as'
      → core_into_submit_input parsers core as' ≡ ok input
      → IsAccepted input
  unfolding core_into_submit_input
  core_into_submit_input-IsAccepted core as' input few e =
      let (envelope, valid, same) = ok-step (validate_envelope parsers core) _ _ input e in
      let (sender, reached) = validate_envelope-AreReached core envelope.0 envelope.1 valid in
      subst IsAccepted (ok-injective _ input same) (sender, reached, few)

All-snoc :
    (as' : List AttachmentInput) (a : AttachmentInput)
    → All IsSmall as'
    → IsSmall a
    → All IsSmall (as' ++ a ∷ [])
All-snoc [] a all small = (small, tt)
All-snoc (x ∷ xs) a all small = (all.0, All-snoc xs a all.1 small)

ended :
    (failure : Option AnyError) (left buf : Bytes)
    → (elim failure as (λ _. Result Bytes AnyError) [ some e ↦ err e | none ↦ ok ([] ++ left) ])
      ≡ ok buf
    → left ≡ buf
ended none left buf e = ok-injective left buf e
ended (some x) left buf e = cc

read_all-length :
    (limit : ℕ) (s : Source) (buf : Bytes) → read_all limit s [] ≡ ok buf → length buf ≤ limit
read_all-length limit s buf e =
    let (fit, rest) = ok-else (ltb limit (length s.left)) _ _ buf e in
    subst (λ x. length x ≤ limit) (ended s.failure s.left buf rest) (ground (arith, fit))

module _ (c : Codec) where
  read_field-length :
      (limit : ℕ) (s : Source) (buf : Bytes) → read_field c limit s ≡ ok buf → length buf ≤ limit
  unfolding read_field
  read_field-length limit s buf e = read_all-length limit s buf (
      subst
        (λ r.
          (elim r as (λ _. Result Bytes AnyError) [ some x ↦ x | none ↦ err "not read to the end" ])
          ≡ ok buf)
        (read_to_end_lem c.size (suc (length s.left)) limit s (omega arith)) e)

  attachment_field-AreFew :
      (field : Field) (parts more : Parts)
      → AreFew parts.1
      → attachment_field c field parts ≡ ok more
      → AreFew more.1
  unfolding attachment_field named_attachment
  attachment_field-AreFew field parts more few e =
      let (room, rest) = ok-else (leb max_attachments_per_email (length parts.1)) _ _ more e in
      let (filename, _, named) = ok-some field.file_name _ _ more rest in
      let (buf, read, same) =
        ok-step (read_field c max_attachment_bytes field.content) _ _ more named in
      let new_one = inline filename (content_type_of field.content_type) buf in
      subst (λ p. AreFew p.1) (ok-injective _ more same)
        (
          ground (arith, room, length-append parts.1 (new_one ∷ [])),
          All-snoc parts.1 new_one few.1
              (read_field-length max_attachment_bytes field.content buf read),
        )

  envelope_field-AreFew :
      (field : Field) (parts more : Parts)
      → AreFew parts.1
      → envelope_field c field parts ≡ ok more
      → AreFew more.1
  unfolding envelope_field
  envelope_field-AreFew field parts more few e =
      let (buf, _, parsed) = ok-step (read_field c max_envelope_bytes field.content) _ _ more e in
      let (core, _, same) = ok-step (c.parse_core buf) _ _ more parsed in
      subst (λ p. AreFew p.1) (ok-injective _ more same) few

  read_part-AreFew :
      (field : Field) (parts more : Parts)
      → AreFew parts.1
      → read_part c field parts ≡ ok more
      → AreFew more.1
  unfolding read_part
  read_part-AreFew field parts more few e =
      ok-either (AreFew more.1) (str_eq (name_of field.name) "envelope") _ _ more
        (envelope_field-AreFew field parts more few)
        (ok-either (AreFew more.1) (str_eq (name_of field.name) "attachment") _ _ more
          (attachment_field-AreFew field parts more few)
          (λ same. subst (λ p. AreFew p.1) (ok-injective parts more same) few))
        e

  read_parts-AreFew :
      (fields : List (Result Field AnyError)) (parts more : Parts)
      → AreFew parts.1
      → read_parts c fields parts ≡ ok more
      → AreFew more.1
  unfolding read_parts
  read_parts-AreFew [] parts more few e = subst (λ p. AreFew p.1) (ok-injective parts more e) few
  read_parts-AreFew (err _ ∷ rest) parts more few e = cc
  read_parts-AreFew (ok field ∷ rest) parts more few e =
      let (next, read, left) = ok-step (read_part c field parts) _ _ more e in
      read_parts-AreFew rest next more (read_part-AreFew field parts next few read) left

  finish_parts-IsAccepted :
      (parts : Parts) (input : SubmitEmailInput)
      → AreFew parts.1
      → finish_parts c parts ≡ ok input
      → IsAccepted c.parsers input
  unfolding finish_parts
  finish_parts-IsAccepted (none, as') input few e = cc
  finish_parts-IsAccepted (some core, as') input few e =
      let (made, converted, same) =
        ok-step (core_into_submit_input c.parsers core as') _ _ input e in
      subst (IsAccepted c.parsers) (ok-injective made input same)
        (core_into_submit_input-IsAccepted c.parsers core as' made few converted)

  -- A request, JSON or multipart, that reaches the use case has a sender and at least one recipient
  -- whose addresses are valid, and at most ten attachments; what it sends itself is at most 25 MiB for
  -- each of them.
  pub request_input-IsAccepted :
      (request : Request) (input : SubmitEmailInput)
      → request_input c request ≡ ok input
      → IsAccepted c.parsers input
  unfolding request_input handle_json handle_multipart
  request_input-IsAccepted (json (err _)) input e = cc
  request_input-IsAccepted (json (ok body)) input e =
      let (req, _, more) = ok-step (c.parse_request body) _ _ input e in
      let (made, converted, same) = ok-step (into_submit_input c.parsers req) _ _ input more in
      subst (IsAccepted c.parsers) (ok-injective made input same)
        (into_submit_input-IsAccepted c.parsers req made converted)
  request_input-IsAccepted (multipart fields) input e =
      let (parts, read, finished) = ok-step (read_parts c fields (none, [])) _ _ input e in
      finish_parts-IsAccepted parts input
        (read_parts-AreFew fields (none, []) parts (omega arith, tt) read) finished
