-- ===== src/Sqlite/Sound.antt =====
-- What each operation of the SQLite adapter leaves of a database whose keys and references are right.
use catapulte.Common.{
  ℕ, List, [], ◌∷◌, ◌≡◌, refl, ap, Bool, true, Option, some, All, Bool-cases, Option-cases, inl,
  inr,
}
use catapulte.Common.Int.{ℤ}
use catapulte.Entity.{AttachmentRef, Bytes, EmailId, Envelope, Uuid}
use catapulte.Entity.LifecycleEvent.{LifecycleEvent, email_id}
use catapulte.Port.Types.{AckToken, TraceCarrier}
use catapulte.Sqlite.{
  Database, EmailRow, QueueRow, conflicts, email_row, find_email, has_id, patched_body, save,
  set_attachments,
}
use catapulte.Sqlite.Queue.{
  ack, claim, claim_row, delete_entry, enqueue, nack, oldest, queued_row, same_bytes, update_entry,
}
use catapulte.Sqlite.Events.{event_row, has_event, publish_event}
use catapulte.Sqlite.Listing.{delete, has_entry_of, has_event_of}
use catapulte.Sqlite.Integrity.{
  IsSound, is_stored, All-append, All-filter, All-imp, is_stored-append, free-All,
  AreDistinct-append, is_stored-update, AreDistinct-update, AreDistinct-filter, events-delete,
  entries-delete,
}

pub save-IsSound :
    (fails : ℕ → Bool) (at : ℤ) (id : EmailId) (env : Envelope) (db : Database)
    → IsSound db
    → IsSound (save fails at id env db).1
unfolding save
save-IsSound fails at id env db s =
    let row = email_row at id env in
    elim (Bool-cases (fails 0)) [
      | inl f ↦ rw (f, save) s
      | inr f ↦
          rw (f, save)
            (elim (Option-cases (find_email (conflicts row) db.emails)) [
              | inl free ↦
                  rw (free, save)
                    (
                      AreDistinct-append db.emails row s.0 (free-All row db.emails free),
                      All-imp _ _ db.events (λ r h. is_stored-append db.emails row r.email_id h)
                          s.1,
                      All-imp _ _ db.queue (λ r h. is_stored-append db.emails row r.email_id h) s.2,
                    )
              | inr (x, taken) ↦ rw (taken, save) s
            ])
    ]

pub set_attachments-IsSound :
    (fails : ℕ → Bool) (id : EmailId) (refs : List AttachmentRef) (db : Database)
    → IsSound db
    → IsSound (set_attachments fails id refs db).1
unfolding set_attachments
set_attachments-IsSound fails id refs db s = elim (Bool-cases (fails 0)) [
  | inl f ↦ rw (f, set_attachments) s
  | inr f ↦
      rw (f, set_attachments)
        (elim (Bool-cases (fails 1)) [
          | inl g ↦ rw (g, set_attachments) s
          | inr g ↦
              rw (g, set_attachments)
                (elim (Option-cases (find_email (has_id id) db.emails)) [
                  | inl gone ↦ rw (gone, set_attachments) s
                  | inr (row, found) ↦
                      rw (found, set_attachments)
                        (elim (Bool-cases (fails 2)) [
                          | inl h ↦ rw (h, set_attachments) s
                          | inr h ↦
                              rw (h, set_attachments)
                                (elim (Bool-cases (fails 3)) [
                                  | inl k ↦ rw (k, set_attachments) s
                                  | inr k ↦
                                      rw (k, set_attachments)
                                        (let body = patched_body refs row.body in
                                          let same = is_stored-update id body db.emails in
                                          (
                                            AreDistinct-update id body db.emails s.0,
                                            All-imp _ _ db.events (λ r e. rw (same r.email_id) e)
                                                s.1,
                                            All-imp _ _ db.queue (λ r e. rw (same r.email_id) e)
                                                s.2,
                                          ))
                                ])
                        ])
                ])
        ])
]

pub delete-IsSound :
    (fails : ℕ → Bool) (id : EmailId) (db : Database) → IsSound db → IsSound (delete fails id db).1
unfolding delete
delete-IsSound fails id db s = elim (Bool-cases (fails 0)) [
  | inl f ↦ rw (f, delete) s
  | inr f ↦
      rw (f, delete)
        (elim (Bool-cases (has_event_of id db.events)) [
          | inl e ↦ rw (e, delete) s
          | inr e ↦
              rw (e, delete)
                (elim (Bool-cases (has_entry_of id db.queue)) [
                  | inl q ↦ rw (q, delete) s
                  | inr q ↦
                      rw (q, delete)
                        (
                          AreDistinct-filter _ db.emails s.0,
                          events-delete id db.emails db.events e s.1,
                          entries-delete id db.emails db.queue q s.2,
                        )
                ])
        ])
]

is_stored-found :
    (rows : List EmailRow) (id : EmailId) (row : EmailRow)
    → find_email (has_id id) rows ≡ some row
    → is_stored rows id ≡ true
is_stored-found rows id row found = rw (found, is_stored) refl

pub publish-IsSound :
    (fails : ℕ → Bool) (id : Uuid) (at : ℤ) (e : LifecycleEvent) (db : Database)
    → IsSound db
    → IsSound (publish_event fails id at e db).1
unfolding publish_event event_row
publish-IsSound fails id at e db s = elim (Bool-cases (fails 0)) [
  | inl f ↦ rw (f, publish_event) s
  | inr f ↦
      rw (f, publish_event)
        (elim (Bool-cases (has_event id db.events)) [
          | inl h ↦ rw (h, publish_event) s
          | inr h ↦
              rw (h, publish_event)
                (elim (Option-cases (find_email (has_id (email_id e)) db.emails)) [
                  | inl gone ↦ rw (gone, publish_event) s
                  | inr (row, found) ↦
                      rw (found, publish_event)
                        (
                          s.0,
                          All-append _ db.events (event_row id at e) s.1
                              (is_stored-found db.emails (email_id e) row found),
                          s.2,
                        )
                ])
        ])
]

pub enqueue-IsSound :
    (fails : ℕ → Bool) (entry : Bytes) (at : ℕ) (trace : TraceCarrier) (id : EmailId)
    (db : Database)
    → IsSound db
    → IsSound (enqueue fails entry at trace id db).1
unfolding enqueue
enqueue-IsSound fails entry at trace id db s = elim (Bool-cases (fails 0)) [
  | inl f ↦ rw (f, enqueue) s
  | inr f ↦
      rw (f, enqueue)
        (elim (Option-cases (find_email (has_id id) db.emails)) [
          | inl gone ↦ rw (gone, enqueue) s
          | inr (row, found) ↦
              rw (found, enqueue)
                (
                  s.0,
                  s.1,
                  All-append _ db.queue (queued_row entry at trace id) s.2
                      (is_stored-found db.emails id row found),
                )
        ])
]

pub All-update_entry :
    (P : QueueRow → Type 0) (f : QueueRow → QueueRow) (entry : Bytes) (rows : List QueueRow)
    → ((r : QueueRow) → P r → P (f r))
    → All P rows
    → All P (update_entry f entry rows)
unfolding update_entry
All-update_entry P f entry [] keeps all = tt
All-update_entry P f entry (r ∷ rs) keeps all = elim (Bool-cases (same_bytes r.id entry)) [
  | inl e ↦ rw (e, update_entry) (keeps r all.0, All-update_entry P f entry rs keeps all.1)
  | inr e ↦ rw (e, update_entry) (all.0, All-update_entry P f entry rs keeps all.1)
]

pub nack-IsSound :
    (fails : ℕ → Bool) (now delay : ℕ) (token : AckToken) (db : Database)
    → IsSound db
    → IsSound (nack fails now delay token db).1
unfolding nack
nack-IsSound fails now delay token db s = elim (Bool-cases (fails 0)) [
  | inl f ↦ rw (f, nack) s
  | inr f ↦ rw (f, nack) (s.0, s.1, All-update_entry _ _ token.into_bytes db.queue (λ r h. h) s.2)
]

pub ack-IsSound :
    (fails : ℕ → Bool) (token : AckToken) (db : Database)
    → IsSound db
    → IsSound (ack fails token db).1
unfolding ack delete_entry
ack-IsSound fails token db s = elim (Bool-cases (fails 0)) [
  | inl f ↦ rw (f, ack) s
  | inr f ↦ rw (f, ack) (s.0, s.1, All-filter _ _ db.queue s.2)
]

pub claim-chosen :
    (now : ℕ) (rows : List QueueRow) (chosen : Option QueueRow)
    → oldest now rows ≡ chosen
    → claim now rows ≡ claim_row now rows chosen
unfolding claim
claim-chosen now rows chosen e = ap (claim_row now rows) e
