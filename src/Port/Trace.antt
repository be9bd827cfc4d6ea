-- ===== src/Port/Trace.antt =====
-- What can be read off a history: which blobs and rows a service has left behind, which emails it
-- has queued and what it has published. These observe calls and the answers of the oracle; they
-- are independent of the code of the services.
use catapulte.Common.{
  ℕ, suc, List, [], ◌∷◌, ◌≡◌, Bool, true, false, not, ◌&&◌, ◌||◌, Result, ok, err, arith, eq_iff,
  str_eq, ◌==◌, refl, ◌∙◌,
}
use catapulte.Entity.{AttachmentRef, BlobRef, EmailId}
use catapulte.Entity.LifecycleEvent.{LifecycleEvent}
use catapulte.Port.Types.{AckToken, created, duplicate}
use catapulte.Port.Call.{
  History, Oracle, Transport, delete_blob, delete_email, ack, deliver, enqueue, nack, publish, put,
  save, set_attachments,
}

abbrev pub same_blob : BlobRef → BlobRef → Bool
same_blob a b = str_eq a.backend b.backend && str_eq a.key b.key

pub same_blob_refl : (b : BlobRef) → same_blob b b ≡ true
same_blob_refl b = ground (arith, eq_iff b.backend b.backend, eq_iff b.key b.key)

abbrev pub same_id : EmailId → EmailId → Bool
same_id a b = a.uuid == b.uuid

module _ (o : Oracle) where
  -- `b` was stored, and nothing has asked for its removal since.
  abbrev pub blob_live : BlobRef → History → Bool
  blob_live b [] = false
  blob_live b (put r ∷ h) = elim (o h (put r)) [
    | ok p ↦ same_blob p.blob b || blob_live b h
    | err _ ↦ blob_live b h
  ]
  blob_live b (delete_blob d ∷ h) = not (same_blob d b) && blob_live b h
  blob_live b (_ ∷ h) = blob_live b h

  -- The row of `id` was created, and nothing has asked for its removal since.
  abbrev pub row_live : EmailId → History → Bool
  row_live id [] = false
  row_live id (save i e ∷ h) = elim (o h (save i e)) [
    | err _ ↦ row_live id h
    | ok result ↦ elim result [
      | created _ ↦ same_id i id || row_live id h
      | duplicate _ ↦ row_live id h
    ]
  ]
  row_live id (delete_email d ∷ h) = not (same_id d id) && row_live id h
  row_live id (_ ∷ h) = row_live id h

  -- The emails that a queue accepted, the newest first.
  abbrev pub enqueued : History → List EmailId
  enqueued [] = []
  enqueued (enqueue id e ∷ h) = elim (o h (enqueue id e)) [
    | ok _ ↦ id ∷ enqueued h
    | err _ ↦ enqueued h
  ]
  enqueued (_ ∷ h) = enqueued h

-- The events handed to the publisher, the newest first.
abbrev pub published : History → List LifecycleEvent
published [] = []
published (publish e ∷ h) = e ∷ published h
published (_ ∷ h) = published h

-- The transports that were asked to deliver, the newest first.
abbrev pub attempts : History → List Transport
attempts [] = []
attempts (deliver t e ∷ h) = t ∷ attempts h
attempts (_ ∷ h) = attempts h

-- How many of them have accepted the email.
abbrev pub accepted : Oracle → History → ℕ
accepted o [] = 0
accepted o (deliver t e ∷ h) = elim (o h (deliver t e)) [
  | ok _ ↦ suc (accepted o h)
  | err _ ↦ accepted o h
]
accepted o (_ ∷ h) = accepted o h

-- How a queue entry is settled: it is removed, or it comes back after a delay in seconds.
pub data Settlement : Type 0 where
  acked : AckToken → Settlement
  nacked : AckToken → ℕ → Settlement

-- What the queue was asked to settle, the newest first.
abbrev pub settlements : History → List Settlement
settlements [] = []
settlements (ack token ∷ h) = acked token ∷ settlements h
settlements (nack token delay ∷ h) = nacked token delay ∷ settlements h
settlements (_ ∷ h) = settlements h

-- The blobs whose removal was asked for, the newest first.
abbrev pub deleted : History → List BlobRef
deleted [] = []
deleted (delete_blob b ∷ h) = b ∷ deleted h
deleted (_ ∷ h) = deleted h

-- The references that the rows of emails were given, the newest first.
abbrev pub patches : History → List (EmailId × List AttachmentRef)
patches [] = []
patches (set_attachments id refs ∷ h) = (id, refs) ∷ patches h
patches (_ ∷ h) = patches h

-- Between the two histories nothing was settled, published, deleted or patched.
pub record Quiet (start h : History) : Type 0 where
  pub settled : settlements h ≡ settlements start
  pub events : published h ≡ published start
  pub blobs : deleted h ≡ deleted start
  pub rows : patches h ≡ patches start

pub Quiet-refl : (h : History) → Quiet h h
Quiet-refl h = record { settled = refl; events = refl; blobs = refl; rows = refl }

pub Quiet-trans : {start k h : History} → Quiet start k → Quiet k h → Quiet start h
Quiet-trans p q = record {
  settled = q.settled ∙ p.settled;
  events = q.events ∙ p.events;
  blobs = q.blobs ∙ p.blobs;
  rows = q.rows ∙ p.rows;
}

-- From `start` to `h` a transport has accepted the email once if the result is a success, and
-- none has if it is an error.
abbrev pub Counted : {A E : Type 0} → Oracle → History → Result A E → History → Type 0
Counted o start (ok _) h = accepted o h ≡ suc (accepted o start)
Counted o start (err _) h = accepted o h ≡ accepted o start
