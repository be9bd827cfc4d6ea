-- ===== src/Sqlite/Stored.antt =====
-- The conversions of adapter/outbound-sqlite/src/dto.rs, and an email on its way from `save` over
-- `set_attachments` and the queue to `try_dequeue`.
use catapulte.Common.{
  ℕ, ◌+◌, ◌^◌, leb, String, List, [], ◌∷◌, ◌++◌, ◌≡◌, refl, ap, subst, if◌then◌else◌, Bool, true,
  false, none, some, Result, ok, arith, map, eq_iff, Bool-cases, inl, inr,
}
use catapulte.Entity.{AnyError, AttachmentRef, Bytes, EmailId, Envelope, RecipientKind, Url}
use catapulte.Entity.Body.{BodySource, Plain, try_new}
use catapulte.Entity.Body
use catapulte.Port.Types.{DequeuedEmail, TraceCarrier, created, duplicate}
use catapulte.Port.Trace.{same_id}
use catapulte.Common.Int.{ℤ}
use catapulte.Sqlite.Dto.{
  EnvelopeBodyDtoDeser, body_to_dto, body_from_dto, kind_to_dto, kind_from_dto, recipients_to_dto,
  recipients_from_dto, attachment_to_dto, attachment_from_dto, split,
}
use catapulte.Sqlite.{
  EmailRow, Database, read_back, body_dto, email_row, find_email, has_id, has_key, conflicts,
  find_duplicate, save, patched_body, update_body, set_attachments,
}
use catapulte.Sqlite.Queue.{
  parse_envelope, enqueue, is_claimable, older, oldest, claimed, queued_row, claim, claim_row,
  hand_out, fetch_claimed, try_dequeue,
}
use catapulte.Sqlite.{QueueRow}

recipients_from_dto-to :
    (rs : List (RecipientKind × String)) → recipients_from_dto (recipients_to_dto rs) ≡ rs
unfolding recipients_from_dto recipients_to_dto kind_from_dto kind_to_dto
recipients_from_dto-to [] = refl
recipients_from_dto-to ((RecipientKind.to, a) ∷ rest) = rw (recipients_from_dto-to rest) refl
recipients_from_dto-to ((RecipientKind.cc, a) ∷ rest) = rw (recipients_from_dto-to rest) refl
recipients_from_dto-to ((RecipientKind.bcc, a) ∷ rest) = rw (recipients_from_dto-to rest) refl

attachments_from_dto-to :
    (refs : List AttachmentRef) → map attachment_from_dto (map attachment_to_dto refs) ≡ refs
unfolding attachment_from_dto attachment_to_dto
attachments_from_dto-to [] = refl
attachments_from_dto-to (r ∷ rs) = rw (attachments_from_dto-to rs) refl

same_id_refl : (i : EmailId) → same_id i i ≡ true
same_id_refl i = ground arith

find-saved :
    (rows : List EmailRow) (new : EmailRow)
    → find_email (conflicts new) rows ≡ none
    → find_email (has_id new.id) (rows ++ new ∷ []) ≡ some new
unfolding find_email conflicts
find-saved [] new absent = rw (same_id_refl new.id, find_email) refl
find-saved (r ∷ rs) new absent = ground (arith, absent, find-saved rs new)

find-update_body :
    (id : EmailId) (rows : List EmailRow) (row : EmailRow) (body : EnvelopeBodyDtoDeser)
    → find_email (has_id id) rows ≡ some row
    → find_email (has_id id) (update_body id body rows) ≡ some (record row { body = body })
unfolding find_email update_body
find-update_body id [] row body found = cc
find-update_body id (r ∷ rs) row body found = elim (Bool-cases (same_id r.id id)) [
  | inl same ↦
      rw (same, update_body)
        (rw (same, find_email)
          (ap (λ o. elim o [ some x ↦ some (record x { body = body }) | none ↦ none ])
            (subst (λ b. (if b then some r else find_email (has_id id) rs) ≡ some row) same found)))
  | inr differs ↦
      rw (differs, update_body)
        (rw (differs, find_email)
          (find-update_body id rs row body (
            subst (λ b. (if b then some r else find_email (has_id id) rs) ≡ some row) differs
              found)))
]

find-key :
    (rows : List EmailRow) (new : EmailRow) (key : String)
    → new.idempotency_key ≡ some key
    → find_email (conflicts new) rows ≡ none
    → find_email (has_key key) (rows ++ new ∷ []) ≡ some new
unfolding find_email conflicts
find-key [] new key k absent = rw (k, find_email) (rw ((eq_iff key key).1 refl) refl)
find-key (r ∷ rs) new key k absent = ground (arith, absent, k, find-key rs new key k)

oldest-append :
    (now : ℕ) (rows : List QueueRow) (new : QueueRow)
    → oldest now rows ≡ none
    → is_claimable now new ≡ true
    → oldest now (rows ++ new ∷ []) ≡ some new
unfolding oldest older
oldest-append now [] new h c = rw (c, oldest) refl
oldest-append now (r ∷ rs) new h c = ground (arith, h, c, oldest-append now rs new)

-- A statement that succeeds, whatever its position.
abbrev pub no_fault : ℕ → Bool
no_fault n = false

abbrev with_row : EmailRow → Database → Database
with_row row db = record db { emails = db.emails ++ row ∷ [] }

save-fresh :
    (at : ℤ) (id : EmailId) (env : Envelope) (db : Database)
    → find_email (conflicts (email_row at id env)) db.emails ≡ none
    → save no_fault at id env db ≡ (ok (created id), with_row (email_row at id env) db)
unfolding save
save-fresh at id env db fresh = rw (fresh, save) refl

find-behind :
    (rs : List EmailRow) (r new row : EmailRow) (key : String)
    → new.idempotency_key ≡ some key
    → conflicts new r ≡ false
    → find_email (has_key key) (r ∷ rs) ≡ some row
    → find_email (has_key key) rs ≡ some row
unfolding find_email conflicts
find-behind rs r new row key k free found = ground (arith, k, free, found)

find-conflict :
    (rows : List EmailRow) (new row : EmailRow) (key : String)
    → new.idempotency_key ≡ some key
    → find_email (has_key key) rows ≡ some row
    → (x : EmailRow) × (find_email (conflicts new) rows ≡ some x)
unfolding find_email
find-conflict [] new row key k found = cc
find-conflict (r ∷ rs) new row key k found = elim (Bool-cases (conflicts new r)) [
  | inl clash ↦ (r, rw (clash, find_email) refl)
  | inr free ↦
      let (x, e) = find-conflict rs new row key k (find-behind rs r new row key k free found) in
      (x, rw (free, find_email) e)
]

save-taken :
    (at : ℤ) (id : EmailId) (env : Envelope) (row : EmailRow) (key : String) (db : Database)
    → env.idempotency_key ≡ some key
    → find_email (has_key key) db.emails ≡ some row
    → save no_fault at id env db ≡ (ok (duplicate row.id), db)
unfolding save find_duplicate email_row
save-taken at id env row key db k found =
    let (x, clash) = find-conflict db.emails (email_row at id env) row key k found in
    rw (clash, save) (rw (k, find_duplicate) (rw (found, find_duplicate) refl))

-- Once an email with an idempotency key is saved in a new row, saving any email under that key
-- returns the first id as a duplicate, and changes nothing.
pub save-duplicate :
    (at at' : ℤ) (id id' : EmailId) (env env' : Envelope) (key : String) (db : Database)
    → env.idempotency_key ≡ some key
    → env'.idempotency_key ≡ some key
    → find_email (conflicts (email_row at id env)) db.emails ≡ none
    → let db' = (save no_fault at id env db).1 in
      (save no_fault at' id' env' db' ≡ (ok (duplicate id), db'))
unfolding email_row
save-duplicate at at' id id' env env' key db k k' fresh = rw (save-fresh at id env db fresh) (
    save-taken at' id' env' (email_row at id env) key (with_row (email_row at id env) db) k'
      (find-key db.emails (email_row at id env) key k fresh))

set_attachments-found :
    (id : EmailId) (refs : List AttachmentRef) (row : EmailRow) (db : Database)
    → find_email (has_id id) db.emails ≡ some row
    → set_attachments no_fault id refs db
      ≡ (ok tt, record db { emails = update_body id (patched_body refs row.body) db.emails })
unfolding set_attachments
set_attachments-found id refs row db found = rw (found, set_attachments) refl

module _ (parse_url : String → Result Url AnyError) where
  -- A body that the program can build: a plain one has a part, and the text of a url parses to it.
  abbrev pub IsStorable : BodySource → Type 0
  IsStorable (BodySource.plain p) = try_new p.text p.html ≡ ok p
  IsStorable (BodySource.mjml (Body.inline _)) = Unit {0}
  IsStorable (BodySource.mjml (Body.named _)) = Unit {0}
  IsStorable (BodySource.mjml (Body.remote u)) = parse_url u ≡ ok u

  body_from_dto-to :
      (b : BodySource) → IsStorable b → body_from_dto parse_url (body_to_dto b) ≡ ok b
  unfolding body_from_dto body_to_dto
  body_from_dto-to (BodySource.plain p) h = rw (h, body_from_dto) refl
  body_from_dto-to (BodySource.mjml (Body.inline s)) h = refl
  body_from_dto-to (BodySource.mjml (Body.named n)) h = refl
  body_from_dto-to (BodySource.mjml (Body.remote u)) h = rw (h, body_from_dto) refl

  -- The row of an envelope whose attachments are patched in later reads back as the envelope with
  -- the patched attachments.
  pub parse_envelope-patched :
      (at : ℤ) (id : EmailId) (env : Envelope) (refs : List AttachmentRef)
      → IsStorable env.body
      → parse_envelope parse_url
          (record (email_row at id env) { body = patched_body refs (email_row at id env).body })
        ≡ ok (record env { attachments = refs })
  unfolding parse_envelope email_row patched_body read_back body_dto split
  parse_envelope-patched at id env refs h =
      rw (body_from_dto-to env.body h, parse_envelope)
        (rw (recipients_from_dto-to env.recipients) (rw (attachments_from_dto-to refs) refl))

  abbrev handed_out : QueueRow → EmailRow → Envelope → DequeuedEmail
  handed_out entry row env = record {
    id = row.id;
    envelope = env;
    attempt = entry.attempt_count + 1;
    token = record { into_bytes = entry.id };
    trace = entry.trace;
  }

  try_dequeue-oldest :
      (now : ℕ) (entry : QueueRow) (row : EmailRow) (env : Envelope) (db : Database)
      → oldest now db.queue ≡ some entry
      → leb (2 ^ 32) (entry.attempt_count + 1) ≡ false
      → find_email (has_id entry.email_id) db.emails ≡ some row
      → parse_envelope parse_url row ≡ ok env
      → (try_dequeue parse_url no_fault now db).0 ≡ ok (some (handed_out entry row env))
  unfolding try_dequeue claim claim_row fetch_claimed hand_out claimed
  try_dequeue-oldest now entry row env db first few found parsed =
      rw (first, try_dequeue)
        (rw (few, fetch_claimed) (rw (found, fetch_claimed) (rw (parsed, hand_out) refl)))

  enqueue-found :
      (entry : Bytes) (at : ℕ) (trace : TraceCarrier) (id : EmailId) (row : EmailRow)
      (db : Database)
      → find_email (has_id id) db.emails ≡ some row
      → enqueue no_fault entry at trace id db
        ≡ (ok tt, record db { queue = db.queue ++ queued_row entry at trace id ∷ [] })
  unfolding enqueue
  enqueue-found entry at trace id row db found = rw (found, enqueue) refl

  -- An email that is saved, patched with its attachments and queued, while no other entry can be
  -- claimed, is what the next `try_dequeue` hands out, as its first attempt.
  pub try_dequeue-queued :
      (saved_at : ℤ) (id : EmailId) (env : Envelope) (refs : List AttachmentRef) (entry : Bytes)
      (at now : ℕ) (trace : TraceCarrier) (db : Database)
      → IsStorable env.body
      → find_email (conflicts (email_row saved_at id env)) db.emails ≡ none
      → oldest now db.queue ≡ none
      → let saved = (save no_fault saved_at id env db).1 in
        let patched = (set_attachments no_fault id refs saved).1 in
        let queued = (enqueue no_fault entry at trace id patched).1 in
        ((try_dequeue parse_url no_fault now queued).0
          ≡ ok (
              some (record {
                id = id;
                envelope = record env { attachments = refs };
                attempt = 1;
                token = record { into_bytes = entry };
                trace = trace;
              })))
  unfolding is_claimable email_row
  try_dequeue-queued saved_at id env refs entry at now trace db h fresh idle =
      let row = email_row saved_at id env in
      let found = find-saved db.emails row fresh in
      let body = patched_body refs row.body in
      let rest = record (with_row row db) {
        emails = update_body id body (db.emails ++ row ∷ []);
      } in
      let kept = find-update_body id (db.emails ++ row ∷ []) row body found in
      rw (save-fresh saved_at id env db fresh) (
        rw (set_attachments-found id refs row (with_row row db) found) (
          rw (enqueue-found entry at trace id (record row { body = body }) rest kept) (
            try_dequeue-oldest now _ (record row { body = body }) _ _
              (oldest-append now db.queue _ idle refl) refl kept
              (parse_envelope-patched saved_at id env refs h))))
