-- ===== src/Tests/Stored.antt =====
-- The SQLite adapter on a small database.
use catapulte.Common.{String, List, [], ◌∷◌, ◌≡◌, refl, false, none, some, Result, ok, arith}
use catapulte.Common.Int.{pos}
use catapulte.Entity.{AnyError, AttachmentRef, EmailId, Envelope, Url}
use catapulte.Port.Types.{duplicate}
use catapulte.Sqlite.{Database, QueueRow, find_email, save, set_attachments}
use catapulte.Sqlite.Stored.{no_fault, save-duplicate, try_dequeue-queued}
use catapulte.Sqlite.Queue.{
  same_bytes, is_claimable, older, oldest, claimed, claim_until, update_entry, delete_entry, claim,
  claim_row, enqueue, try_dequeue,
}
use catapulte.Sqlite.Queue.Claim.{ClaimOutcome, claim-ClaimOutcome}
use catapulte.Sqlite.Queue.Lease.{drop, give_back, claim-lease}
use catapulte.Entity.Body.{try_new}
use catapulte.Tests.Ports.{blob}
use catapulte.Tests.Delivery.{id, envelope}

abbrev waiting : QueueRow
waiting = record {
  id = 1 ∷ [];
  email_id = id;
  enqueued_at = 5;
  claimed_until = none;
  attempt_count = 0;
  trace = record { into_pairs = [] };
}

abbrev behind : QueueRow
behind = record waiting { id = 2 ∷ []; enqueued_at = 6 }

claim-ClaimOutcome_example :
    ClaimOutcome 10 (waiting ∷ behind ∷ []) (claim 10 (waiting ∷ behind ∷ []))
claim-ClaimOutcome_example = claim-ClaimOutcome 10 (waiting ∷ behind ∷ [])

-- The first entry is claimed at 10, another one is returned and deleted, and a claim at 2000 takes
-- the second.
claim-lease_example : same_bytes (2 ∷ []) (1 ∷ []) ≡ false
unfolding claim claim_row oldest older is_claimable claimed claim_until update_entry delete_entry
    same_bytes
claim-lease_example =
    claim-lease 10 2000 (waiting ∷ behind ∷ []) (claimed 10 waiting) (claimed 2000 behind)
      (give_back 20 5 (3 ∷ []) ∷ drop (3 ∷ []) ∷ []) (omega arith) (omega arith) refl
      (refl, (tt, tt)) refl

abbrev keyed : Envelope
keyed = record envelope { idempotency_key = some "k" }

abbrev pub blank : Database
blank = record { emails = []; queue = []; events = [] }

abbrev other_id : EmailId
other_id = record { uuid = 8 }

save-duplicate_example :
    save no_fault (pos 4) other_id keyed (save no_fault (pos 4) id keyed blank).1
    ≡ (ok (duplicate id), (save no_fault (pos 4) id keyed blank).1)
save-duplicate_example =
    save-duplicate (pos 4) (pos 4) id other_id keyed keyed "k" blank refl refl
      (unfold find_email in refl)

abbrev pub no_url : String → Result Url AnyError
no_url u = ok u

abbrev attached : List AttachmentRef
attached =
    record { filename = "a.txt"; content_type = "text/plain"; size_bytes = 3; blob = blob } ∷ []

try_dequeue-queued_example :
    let saved = (save no_fault (pos 4) id keyed blank).1 in
    let patched = (set_attachments no_fault id attached saved).1 in
    let queued = (enqueue no_fault (1 ∷ []) 5 (record { into_pairs = [] }) id patched).1 in
    ((try_dequeue no_url no_fault 10 queued).0
      ≡ ok (
          some (record {
            id = id;
            envelope = record keyed { attachments = attached };
            attempt = 1;
            token = record { into_bytes = 1 ∷ [] };
            trace = record { into_pairs = [] };
          })))
try_dequeue-queued_example =
    try_dequeue-queued no_url (pos 4) id keyed attached (1 ∷ []) 5 10 (record { into_pairs = [] })
      blank (unfold try_new in refl) (unfold find_email in refl) (unfold oldest in refl)
