-- ===== src/Tests/Database.antt =====
-- The SQLite adapter's events and listings on a small database.
use catapulte.Common.{
  ℕ, suc, ◌+◌, ◌≤◌, String, List, [], ◌∷◌, ◌++◌, ◌≡◌, refl, Bool, true, none, some, ok, All, Elem,
  length, inl, str_eq,
}
use catapulte.Common.Int.{pos}
use catapulte.Common.Sorting.{IsSorted}
use catapulte.Entity.LifecycleEvent.{LifecycleEvent, email_id}
use catapulte.Entity.Sender.{SenderName}
use catapulte.Port.Call.{After, Oracle, list_all_attachment_blobs, list_keys_older_than}
use catapulte.Port.Queries.{ListEmailsParams, ListEventsParams, sent}
use catapulte.Routing.{merge_answer, sent_of}
use catapulte.Gc.{sweep_once}
use catapulte.Gc.InUse.{Spared, sweep_once-in_use}
use catapulte.Sqlite.{Database, EmailRow, EventRow, find_email}
use catapulte.Sqlite.Dto.{plain, with_attachments, split}
use catapulte.Sqlite.Stored.{no_fault}
use catapulte.Sqlite.Events.{
  event_row, get_stats, has_event, is_newer, list_events, matches_event, publish_event,
  selected_events,
}
use catapulte.Sqlite.Listing.{
  blobs_of, collect_blobs, has_status, latest, latest_event_type, list_emails, matches_email, newer,
  status_of_type, to_email_record,
}
use catapulte.Sqlite.Listing as Listing
use catapulte.Sqlite.Status.{
  list_emails-status, list_events-pages, publish-status, records, status_after,
}
use catapulte.Sqlite.Usage.{get_stats-sent_of, publish_event-sent_of}
use catapulte.Sqlite.Operations.{
  Operation, apply_all, apply_all-IsSound, dequeue, enqueue_email, publish, save_email,
}
use catapulte.Sqlite.Integrity.{IsSound}
use catapulte.Tests.Ports.{serving}
use catapulte.Tests.Delivery.{envelope, id}
use catapulte.Tests.Stored.{blank, no_url}

abbrev row : EmailRow
row = record {
  id = id;
  idempotency_key = none;
  correlation_id = none;
  subject = none;
  sender = "jo@example.com";
  recipients = [];
  body = with_attachments (plain (some "hi") none) (
      record {
        filename = "a.txt";
        content_type = "text/plain";
        size_bytes = 3;
        blob = record { backend = "fs"; key = "k1" };
      }
      ∷ []);
  variables = "{}";
  created_at_ms = pos 5;
}

abbrev main : SenderName
main = record { as_str = "main" }

abbrev delivered : ℕ → EventRow
delivered n = record {
  id = n;
  email_id = id;
  event_type = "delivery.succeeded";
  payload = none;
  sender_name = some "main";
  error_class = none;
  created_at = pos (10 + n);
}

abbrev pub with_events : List EventRow → Database
with_events events = record { emails = row ∷ []; queue = []; events = events }

abbrev steps : List ((ℕ → Bool) × Operation)
steps =
    (no_fault, save_email (pos 1) id envelope)
    ∷ (no_fault, publish 3 (pos 2) (LifecycleEvent.queued id none))
    ∷ (no_fault, enqueue_email (7 ∷ []) 3 (record { into_pairs = [] }) id)
    ∷ (no_fault, dequeue 4)
    ∷ []

apply_all-IsSound_example : IsSound (apply_all no_url steps blank)
apply_all-IsSound_example = apply_all-IsSound no_url steps blank (tt, tt, tt)

get_stats-sent_of_example :
    sent_of main (
      merge_answer
        (get_stats no_fault
          (main ∷ main ∷ [])
          (pos 0)
          (with_events (delivered 1 ∷ delivered 2 ∷ [])))
        [])
    ≡ 0
get_stats-sent_of_example =
    get_stats-sent_of main (pos 0) (main ∷ main ∷ []) (with_events (delivered 1 ∷ delivered 2 ∷ []))

publish_event-sent_of_example :
    let db = with_events (delivered 1 ∷ []) in
    let db' = (publish_event no_fault 4 (pos 40) (LifecycleEvent.sent id main none) db).1 in
    (sent_of main (merge_answer (get_stats no_fault (main ∷ []) (pos 0) db') [])
      ≡ suc (sent_of main (merge_answer (get_stats no_fault (main ∷ []) (pos 0) db) [])))
publish_event-sent_of_example =
    publish_event-sent_of main (pos 0) (pos 40) (main ∷ []) 4 id none row
      (with_events (delivered 1 ∷ [])) refl (unfold has_event in refl) (unfold find_email in refl)
      refl

publish-status_example :
    let e = LifecycleEvent.sent id main none in
    let (result, db') = publish_event no_fault 4 (pos 40) e (with_events (delivered 1 ∷ [])) in
    (result ≡ ok tt) × (status_of_type (latest_event_type (email_id e) db'.events) ≡ status_after e)
unfolding is_newer event_row
publish-status_example =
    publish-status 4 (pos 40) (LifecycleEvent.sent id main none) row
      (with_events (delivered 1 ∷ [])) (unfold has_event in refl)
      (unfold find_email email_id in refl) ((λ _. refl), tt)

abbrev all_events : ListEventsParams
all_events = record {
  email_id = some id;
  event_type = none;
  sender_name = some "main";
  error_class = none;
  after_ms = none;
  before_ms = none;
  limit = 1;
  offset = 0;
}

list_events-pages_example :
    let db = with_events (delivered 1 ∷ delivered 2 ∷ delivered 3 ∷ []) in
    (records (list_events no_fault all_events db)
        ++ records (list_events no_fault (record all_events { limit = 2; offset = 1 }) db)
      ≡ records (list_events no_fault (record all_events { limit = 3 }) db))
    × IsSorted is_newer (selected_events all_events db.events)
    × All (λ r. matches_event all_events r ≡ true) (selected_events all_events db.events)
list_events-pages_example =
    list_events-pages all_events 2 (with_events (delivered 1 ∷ delivered 2 ∷ delivered 3 ∷ []))

abbrev sent_emails : ListEmailsParams
sent_emails = record {
  status = some sent;
  after_ms = none;
  before_ms = none;
  recipient = none;
  template = none;
  id = none;
  limit = 5;
  offset = 0;
}

abbrev pub equal_text : String → String → Bool
equal_text address pattern = str_eq address pattern

list_emails-status_example :
    let db = with_events (delivered 1 ∷ []) in
    let listing = records (list_emails equal_text no_fault sent_emails db) in
    (All (λ r. r.status ≡ sent) listing
      × ((x : EmailRow)
          → sent_emails.offset ≡ 0
          → length db.emails ≤ sent_emails.limit
          → Elem x db.emails
          → matches_email equal_text sent_emails x ≡ true
          → (to_email_record db.events x).status ≡ sent
          → Elem (to_email_record db.events x) listing))
list_emails-status_example =
    list_emails-status equal_text sent_emails sent (with_events (delivered 1 ∷ [])) refl

-- A store with two keys, of which the database has one.
abbrev collecting : Oracle
collecting h (list_keys_older_than s) = ok ("k1" ∷ "k2" ∷ [])
collecting h list_all_attachment_blobs = ok (record { backend = "fs"; key = "k1" } ∷ [])
collecting h c = serving h c

sweep_once-in_use_example :
    After
      (λ _ h. Spared "fs" (record { backend = "fs"; key = "k1" }) [] h)
      []
      (sweep_once collecting "fs" 60)
unfolding Listing.list_all_attachment_blobs collect_blobs has_status latest_event_type latest
    blobs_of split
sweep_once-in_use_example =
    sweep_once-in_use collecting "fs" 60 [] (with_events []) row
      (record { backend = "fs"; key = "k1" }) refl (inl refl) refl (inl refl)
