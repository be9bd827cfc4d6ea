-- ===== src/Worker/Settling.antt =====
-- What a handling in adapter/inbound-worker/src/worker.rs plans, and what of it follows the queue's answer.
use catapulte.Common.{String, List, [], ◌∷◌, ◌≡◌, ap, ◌∙◌, Option, Result, ok, err}
use catapulte.Entity.{AttachmentRef, BlobRef, EmailId}
use catapulte.Entity.LifecycleEvent.{LifecycleEvent, sent}
use catapulte.Entity.Sender.{SenderName}
use catapulte.Port.Types.{AckToken, EmailQueueError}
use catapulte.Port.Call.{History, publish}
use catapulte.Port.Trace.{Settlement, acked, settlements, published, deleted, patches, Quiet}

-- The blobs of `atts`, deleted one after the other, on top of those deleted before.
abbrev pub delete_all : List AttachmentRef → List BlobRef → List BlobRef
delete_all [] before = before
delete_all (a ∷ rest) before = delete_all rest (a.blob ∷ before)

-- The patches of rows that a handling makes if the queue accepts, on top of those before.
abbrev pub patch_all :
    List (EmailId × List AttachmentRef)
    → List (EmailId × List AttachmentRef)
    → List (EmailId × List AttachmentRef)
patch_all [] before = before
patch_all (p ∷ ps) before = patch_all ps (p ∷ before)

-- What a handling does once the queue is asked to settle the entry: by `s`, with the event to
-- publish, the patches of rows and the attachments whose blobs are to be deleted.
pub record Plan : Type 0 where
  pub settlement : Settlement
  pub event : LifecycleEvent
  pub rows : List (EmailId × List AttachmentRef)
  pub blobs : List AttachmentRef

-- By the answer of the queue: if it accepted, the event was published, the rows were patched and
-- the blobs were deleted, since `start`, at which `events` had been published; if it refused,
-- nothing was.
abbrev pub Told :
    Plan → Result (Unit {0}) EmailQueueError → History → List LifecycleEvent → History → Type 0
Told plan (ok _) start events h =
    (published h ≡ plan.event ∷ events)
    × (patches h ≡ patch_all plan.rows (patches start))
    × (deleted h ≡ delete_all plan.blobs (deleted start))
Told plan (err _) start events h =
    (published h ≡ events) × (patches h ≡ patches start) × (deleted h ≡ deleted start)

-- Since `start` the entry was settled once, as planned, and the queue's answer was heeded.
pub record HandledAs (plan : Plan) (answer : Result (Unit {0}) EmailQueueError) (start : History)
    (events : List LifecycleEvent) (h : History) : Type 0 where
  pub settled : settlements h ≡ plan.settlement ∷ settlements start
  pub told : Told plan answer start events h

abbrev pub delivered_plan :
    EmailId → Option String → List AttachmentRef → AckToken → SenderName → Plan
delivered_plan id cid atts token name = record {
  settlement = acked token;
  event = sent id name cid;
  rows = (id, []) ∷ [];
  blobs = atts;
}

abbrev pub failure_plan : Settlement → LifecycleEvent → Plan
failure_plan s event = record { settlement = s; event = event; rows = []; blobs = [] }

-- The history from which a record counts may be moved over a part that is quiet.
Told-moved :
    (start k h : History) {events before : List LifecycleEvent} (plan : Plan)
    (answer : Result (Unit {0}) EmailQueueError)
    → patches k ≡ patches start
    → deleted k ≡ deleted start
    → before ≡ events
    → Told plan answer k before h
    → Told plan answer start events h
Told-moved start k h plan (ok _) p q r (a, b, c) = (
  a ∙ ap (λ l. plan.event ∷ l) r,
  b ∙ ap (patch_all plan.rows) p,
  c ∙ ap (delete_all plan.blobs) q,
)
Told-moved start k h plan (err _) p q r (a, b, c) = (a ∙ r, b ∙ p, c ∙ q)

pub HandledAs-moved :
    (start k h : History) (plan : Plan) (answer : Result (Unit {0}) EmailQueueError)
    (event : LifecycleEvent)
    → Quiet (publish event ∷ start) k
    → HandledAs plan answer k (published k) h
    → HandledAs plan answer start (event ∷ published start) h
HandledAs-moved start k h plan answer event q x = record {
  settled = x.settled ∙ ap (λ l. plan.settlement ∷ l) q.settled;
  told = Told-moved start k h plan answer q.rows q.blobs q.events x.told;
}
