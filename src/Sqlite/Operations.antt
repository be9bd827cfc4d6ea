-- ===== src/Sqlite/Operations.antt =====
-- The operations of the SQLite adapter as steps of one state, and what all of them preserve.
use catapulte.Common.{
  ℕ, String, List, [], ◌∷◌, ◌≡◌, refl, ap, ◌∙◌, sym, subst, Bool, false, Option, none, some, Result,
  ok, err, Bool-cases, Option-cases, inl, inr, leb, ◌+◌, ◌^◌,
}
use catapulte.Common.Int.{ℤ}
use catapulte.Entity.{AnyError, AttachmentRef, Bytes, EmailId, Envelope, Url, Uuid}
use catapulte.Entity.LifecycleEvent.{LifecycleEvent}
use catapulte.Port.Types.{AckToken, DequeuedEmail, EmailQueueError, TraceCarrier}
use catapulte.Sqlite.{Database, QueueRow, find_email, has_id, save, set_attachments}
use catapulte.Sqlite.Queue.{
  ack, claim_row, claimed, enqueue, fetch_claimed, nack, oldest, try_dequeue, update_entry,
}
use catapulte.Sqlite.Events.{publish_event}
use catapulte.Sqlite.Listing.{delete}
use catapulte.Sqlite.Integrity.{IsSound}
use catapulte.Sqlite.Sound.{
  All-update_entry, save-IsSound, set_attachments-IsSound, delete-IsSound, publish-IsSound,
  enqueue-IsSound, nack-IsSound, ack-IsSound, claim-chosen,
}

-- An operation with the ids and the times that it draws.
pub data Operation : Type 0 where
  save_email : ℤ → EmailId → Envelope → Operation
  patch_attachments : EmailId → List AttachmentRef → Operation
  delete_email : EmailId → Operation
  publish : Uuid → ℤ → LifecycleEvent → Operation
  enqueue_email : Bytes → ℕ → TraceCarrier → EmailId → Operation
  dequeue : ℕ → Operation
  ack_entry : AckToken → Operation
  nack_entry : ℕ → ℕ → AckToken → Operation

module _ (parse_url : String → Result Url AnyError) where
  acked-IsSound :
      (acked : Result (Unit {0}) EmailQueueError) (db : Database)
      → IsSound db
      → IsSound
          (elim acked as (λ _. Result (Option DequeuedEmail) EmailQueueError × Database) [
            | ok _ ↦ (ok none, db)
            | err e ↦ (err e, db)
          ]).1
  acked-IsSound (ok _) db s = s
  acked-IsSound (err e) db s = s

  fetch_claimed-IsSound :
      (fails : ℕ → Bool) (entry : QueueRow) (db : Database)
      → IsSound db
      → IsSound (fetch_claimed parse_url fails entry db).1
  unfolding fetch_claimed
  fetch_claimed-IsSound fails entry db s = elim (Bool-cases (leb (2 ^ 32) entry.attempt_count)) [
    | inl f ↦ rw (f, fetch_claimed) s
    | inr f ↦
        rw (f, fetch_claimed)
          (elim (Bool-cases (fails 1)) [
            | inl g ↦ rw (g, fetch_claimed) s
            | inr g ↦
                rw (g, fetch_claimed)
                  (elim (Option-cases (find_email (has_id entry.email_id) db.emails)) [
                    | inr (row, found) ↦ rw (found, fetch_claimed) s
                    | inl gone ↦
                        rw (gone, fetch_claimed)
                          (acked-IsSound
                            (ack (λ n. fails (n + 2)) (record { into_bytes = entry.id }) db).0 _
                            (ack-IsSound (λ n. fails (n + 2)) (record { into_bytes = entry.id }) db
                              s))
                  ])
          ])
  ]

  abbrev after_claim :
      (ℕ → Bool)
      → Database
      → Option QueueRow × List QueueRow
      → Result (Option DequeuedEmail) EmailQueueError × Database
  after_claim fails db (none, rows) = (ok none, record db { queue = rows })
  after_claim fails db (some r, rows) = fetch_claimed parse_url fails r (record db { queue = rows })

  claim-eta :
      (fails : ℕ → Bool) (db : Database) (chosen : Option QueueRow) (rows : List QueueRow)
      → after_claim fails db (chosen, rows)
        ≡ (elim chosen as (λ _. Result (Option DequeuedEmail) EmailQueueError × Database) [
          | none ↦ (ok none, record db { queue = rows })
          | some r ↦ fetch_claimed parse_url fails r (record db { queue = rows })
        ])
  claim-eta fails db none rows = refl
  claim-eta fails db (some r) rows = refl

  pub try_dequeue-chosen :
      (fails : ℕ → Bool) (now : ℕ) (db : Database) (chosen : Option QueueRow)
      → fails 0 ≡ false
      → oldest now db.queue ≡ chosen
      → try_dequeue parse_url fails now db ≡ after_claim fails db (claim_row now db.queue chosen)
  unfolding try_dequeue
  try_dequeue-chosen fails now db chosen f e =
      rw (f, try_dequeue) (sym (claim-eta fails db _ _))
      ∙ ap (after_claim fails db) (claim-chosen now db.queue chosen e)

  dequeue-IsSound :
      (fails : ℕ → Bool) (now : ℕ) (db : Database) (chosen : Option QueueRow)
      → IsSound db
      → IsSound (after_claim fails db (claim_row now db.queue chosen)).1
  unfolding claim_row claimed
  dequeue-IsSound fails now db none s = s
  dequeue-IsSound fails now db (some r) s =
      fetch_claimed-IsSound fails (claimed now r)
        (record db { queue = update_entry (claimed now) r.id db.queue })
        (s.0, s.1, All-update_entry _ (claimed now) r.id db.queue (λ x h. h) s.2)

  try_dequeue-IsSound :
      (fails : ℕ → Bool) (now : ℕ) (db : Database)
      → IsSound db
      → IsSound (try_dequeue parse_url fails now db).1
  unfolding try_dequeue
  try_dequeue-IsSound fails now db s = elim (Bool-cases (fails 0)) [
    | inl f ↦ rw (f, try_dequeue) s
    | inr f ↦
        subst (λ x. IsSound x.1)
          (sym (try_dequeue-chosen fails now db (oldest now db.queue) f refl))
          (dequeue-IsSound fails now db (oldest now db.queue) s)
  ]

  -- The database after an operation, whose statements may fail.
  abbrev pub apply : (ℕ → Bool) → Operation → Database → Database
  apply fails (save_email at id env) db = (save fails at id env db).1
  apply fails (patch_attachments id refs) db = (set_attachments fails id refs db).1
  apply fails (delete_email id) db = (delete fails id db).1
  apply fails (publish id at e) db = (publish_event fails id at e db).1
  apply fails (enqueue_email entry at trace id) db = (enqueue fails entry at trace id db).1
  apply fails (dequeue now) db = (try_dequeue parse_url fails now db).1
  apply fails (ack_entry token) db = (ack fails token db).1
  apply fails (nack_entry now delay token) db = (nack fails now delay token db).1

  abbrev pub apply_all : List ((ℕ → Bool) × Operation) → Database → Database
  apply_all [] db = db
  apply_all ((fails, op) ∷ rest) db = apply_all rest (apply fails op db)

  apply-IsSound :
      (fails : ℕ → Bool) (op : Operation) (db : Database) → IsSound db → IsSound (apply fails op db)
  apply-IsSound fails (save_email at id env) db s = save-IsSound fails at id env db s
  apply-IsSound fails (patch_attachments id refs) db s = set_attachments-IsSound fails id refs db s
  apply-IsSound fails (delete_email id) db s = delete-IsSound fails id db s
  apply-IsSound fails (publish id at e) db s = publish-IsSound fails id at e db s
  apply-IsSound fails (enqueue_email entry at trace id) db s =
      enqueue-IsSound fails entry at trace id db s
  apply-IsSound fails (dequeue now) db s = try_dequeue-IsSound fails now db s
  apply-IsSound fails (ack_entry token) db s = ack-IsSound fails token db s
  apply-IsSound fails (nack_entry now delay token) db s = nack-IsSound fails now delay token db s

  -- Whatever operations run on a sound database, with whatever statements failing: no two emails
  -- share an id or an idempotency key, and every event and every queue entry is one of a stored email.
  pub apply_all-IsSound :
      (ops : List ((ℕ → Bool) × Operation)) (db : Database)
      → IsSound db
      → IsSound (apply_all ops db)
  apply_all-IsSound [] db s = s
  apply_all-IsSound ((fails, op) ∷ rest) db s =
      apply_all-IsSound rest (apply fails op db) (apply-IsSound fails op db s)
