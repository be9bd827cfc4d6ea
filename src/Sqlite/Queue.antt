-- ===== src/Sqlite/Queue.antt =====
-- adapter/outbound-sqlite/src/email_queue.rs: the queue table. An entry is handed out under a lease:
-- its `claimed_until` lies ahead.
pub mod Claim
pub mod Lease
use catapulte.Common.{
  ℕ, ◌+◌, ◌-◌, ◌*◌, ◌^◌, String, List, [], ◌∷◌, ◌++◌, Bool, true, false, not, ◌&&◌, Option, none,
  some, Result, ok, err, map, filter, leb, ltb, length, ◌==◌, if◌then◌else◌,
}
use catapulte.Common.Int.{ℤ, pos, negsuc, ltb_ℤ, i64_max}
use catapulte.Entity.{AnyError, Bytes, EmailId, Envelope, Url}
use catapulte.Port.Types.{AckToken, DequeuedEmail, EmailQueueError, TraceCarrier, storage}
use catapulte.Sqlite.{Database, EmailRow, QueueRow, find_email, has_id}
use catapulte.Sqlite.Dto.{attachment_from_dto, body_from_dto, recipients_from_dto, split}

-- Whether two ids are the same.
unfoldable pub same_bytes : Bytes → Bytes → Bool
same_bytes [] [] = true
same_bytes [] (_ ∷ _) = false
same_bytes (_ ∷ _) [] = false
same_bytes (a ∷ as') (b ∷ bs) = a == b && same_bytes as' bs

abbrev pub queued_row : Bytes → ℕ → TraceCarrier → EmailId → QueueRow
queued_row entry at trace id = record {
  id = entry;
  email_id = id;
  enqueued_at = at;
  claimed_until = none;
  attempt_count = 0;
  trace = trace;
}

-- `EmailQueue::enqueue` under a new entry id, at a time of SQLite's clock. `email_id` refers to a row
-- of `emails`, and sqlx has SQLite enforce such references.
unfoldable pub enqueue :
    (ℕ → Bool)
    → Bytes
    → ℕ
    → TraceCarrier
    → EmailId
    → Database
    → Result (Unit {0}) EmailQueueError × Database
enqueue fails entry at trace id db =
    if fails 0
    then (err (storage "inserting into email_queue"), db)
    else elim (find_email (has_id id) db.emails) [
      | none ↦ (err (storage "inserting into email_queue"), db)
      | some _ ↦ (ok tt, record db { queue = db.queue ++ queued_row entry at trace id ∷ [] })
    ]

-- `now + processing_timeout_ms` on i64, which wraps around.
unfoldable pub claim_until : ℕ → ℤ
claim_until now =
    if leb (now + 300000) i64_max then pos (now + 300000) else negsuc (2 ^ 64 - (now + 300000) - 1)

-- `claimed_until IS NULL OR claimed_until < ?`
unfoldable pub is_claimable : ℕ → QueueRow → Bool
is_claimable now row = elim row.claimed_until [ none ↦ true | some u ↦ ltb_ℤ u (pos now) ]

-- The older one of a row and of the oldest behind it.
unfoldable pub older : QueueRow → Option QueueRow → QueueRow
older r none = r
older r (some s) = if leb r.enqueued_at s.enqueued_at then r else s

-- `ORDER BY enqueued_at ASC LIMIT 1` over the claimable rows.
unfoldable pub oldest : ℕ → List QueueRow → Option QueueRow
oldest now [] = none
oldest now (r ∷ rs) =
    let rest = oldest now rs in if is_claimable now r then some (older r rest) else rest

unfoldable pub claimed : ℕ → QueueRow → QueueRow
claimed now row = record row {
  attempt_count = row.attempt_count + 1;
  claimed_until = some (claim_until now);
}

-- `UPDATE email_queue ... WHERE id = ?`
unfoldable pub update_entry : (QueueRow → QueueRow) → Bytes → List QueueRow → List QueueRow
update_entry f entry [] = []
update_entry f entry (r ∷ rs) =
    let rest = update_entry f entry rs in if same_bytes r.id entry then f r ∷ rest else r ∷ rest

-- The claiming statement: the row that it returns, if there is one to claim, and the queue.
unfoldable pub claim_row : ℕ → List QueueRow → Option QueueRow → Option QueueRow × List QueueRow
claim_row now rows none = (none, rows)
claim_row now rows (some r) = (some (claimed now r), update_entry (claimed now) r.id rows)

unfoldable pub claim : ℕ → List QueueRow → Option QueueRow × List QueueRow
unfolding claim_row
claim now rows = claim_row now rows (oldest now rows)

-- `DELETE FROM email_queue WHERE id = ?`
unfoldable pub delete_entry : Bytes → List QueueRow → List QueueRow
delete_entry entry rows = filter (λ r. not (same_bytes r.id entry)) rows

unfoldable pub ack : (ℕ → Bool) → AckToken → Database → Result (Unit {0}) EmailQueueError × Database
ack fails token db =
    if fails 0
    then (err (storage "deleting from email_queue"), db)
    else (ok tt, record db { queue = delete_entry token.into_bytes db.queue })

-- The delay in milliseconds as an i64, at most its greatest value.
unfoldable pub delay_ms : ℕ → ℕ
delay_ms delay = if leb (delay * 1000) i64_max then delay * 1000 else i64_max

-- `now.saturating_add(delay_ms)`, of two values that are not negative.
unfoldable pub nacked_until : ℕ → ℕ → ℤ
nacked_until now delay =
    if leb (now + delay_ms delay) i64_max then pos (now + delay_ms delay) else pos i64_max

abbrev pub returned : ℕ → ℕ → QueueRow → QueueRow
returned now delay row = record row { claimed_until = some (nacked_until now delay) }

-- `nack` with a delay in seconds.
unfoldable pub nack :
    (ℕ → Bool) → ℕ → ℕ → AckToken → Database → Result (Unit {0}) EmailQueueError × Database
nack fails now delay token db =
    if fails 0
    then (err (storage "nacking email_queue entry"), db)
    else (ok tt, record db { queue = update_entry (returned now delay) token.into_bytes db.queue })

-- `pending`: the number of entries that can be claimed.
unfoldable pub pending : ℕ → List QueueRow → ℕ
pending now rows = length (filter (is_claimable now) rows)

module _ (parse_url : String → Result Url AnyError) where
  -- `parse_envelope`, with the context that an error prints.
  unfoldable pub parse_envelope : EmailRow → Result Envelope AnyError
  parse_envelope row =
      let (source, attachments) = split row.body in
      elim (body_from_dto parse_url source) [
        | err _ ↦ err "deserializing body"
        | ok body ↦ ok (record {
          idempotency_key = row.idempotency_key;
          correlation_id = row.correlation_id;
          subject = row.subject;
          sender = row.sender;
          recipients = recipients_from_dto row.recipients;
          body = body;
          variables = row.variables;
          attachments = map attachment_from_dto attachments;
        })
      ]

  -- An email that is handed out; the token of the entry is its id.
  unfoldable pub hand_out : QueueRow → EmailRow → Result (Option DequeuedEmail) EmailQueueError
  hand_out entry row = elim (parse_envelope row) [
    | err e ↦ err (storage e)
    | ok env ↦ ok (
        some (record {
          id = row.id;
          envelope = env;
          attempt = entry.attempt_count;
          token = record { into_bytes = entry.id };
          trace = entry.trace;
        }))
  ]

  -- What `try_dequeue` does with the entry that it claimed: an entry without its email is deleted.
  unfoldable pub fetch_claimed :
      (ℕ → Bool) → QueueRow → Database → Result (Option DequeuedEmail) EmailQueueError × Database
  fetch_claimed fails entry db =
      if leb (2 ^ 32) entry.attempt_count
      then (err (storage "attempt_count out of range"), db)
      else if fails 1
      then (err (storage "fetching email for dequeue"), db)
      else elim (find_email (has_id entry.email_id) db.emails) [
        | some row ↦ (hand_out entry row, db)
        | none ↦
            let (acked, db') = ack (λ n. fails (n + 2)) (record { into_bytes = entry.id }) db in
            elim acked [ ok _ ↦ (ok none, db') | err e ↦ (err e, db') ]
      ]

  unfoldable pub try_dequeue :
      (ℕ → Bool) → ℕ → Database → Result (Option DequeuedEmail) EmailQueueError × Database
  try_dequeue fails now db =
      if fails 0
      then (err (storage "claiming next queue entry"), db)
      else (let (entry, rows) = claim now db.queue in
          elim entry [
            | none ↦ (ok none, record db { queue = rows })
            | some row ↦ fetch_claimed fails row (record db { queue = rows })
          ])
