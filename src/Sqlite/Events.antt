-- ===== src/Sqlite/Events.antt =====
-- adapter/outbound-sqlite/src/{event_publisher,event_repository,sender_usage}.rs: the table of
-- lifecycle events. Each operation is one statement, which may fail. `email_id` refers to a row of
-- `emails`, and sqlx has SQLite enforce such references.
use catapulte.Common.{
  ℕ, suc, String, List, [], ◌∷◌, ◌++◌, Bool, true, false, not, ◌&&◌, ◌||◌, Option, none, some,
  Result, ok, err, map, filter, str_eq, ltb, ◌==◌, if◌then◌else◌,
}
use catapulte.Common.Int.{ℤ, ltb_ℤ, eqb_ℤ}
use catapulte.Common.Paging.{page}
use catapulte.Entity.{Uuid}
use catapulte.Entity.ErrorClass.{as_str}
use catapulte.Entity.LifecycleEvent.{
  LifecycleEvent, email_id, error_class, event_type, payload, sender_name,
}
use catapulte.Entity.Sender.{SenderName}
use catapulte.Port.Types.{EventPublisherError, SenderStats, SenderUsageError, publish, storage}
use catapulte.Port.Queries.{EventRecord, EventRepositoryError, ListEventsParams, storage}
use catapulte.Port.Trace.{same_id}
use catapulte.Sqlite.{Database, EventRow, find_email, has_id}

-- The row of an event under a new id, inserted at a time of SQLite's clock.
unfoldable pub event_row : Uuid → ℤ → LifecycleEvent → EventRow
event_row id at e = record {
  id = id;
  email_id = email_id e;
  event_type = event_type e;
  payload = some (payload e);
  sender_name = elim (sender_name e) [ some n ↦ some n.as_str | none ↦ none ];
  error_class = elim (error_class e) [ some c ↦ some (as_str c) | none ↦ none ];
  created_at = at;
}

-- Whether an event has the id, which the primary key refuses then.
unfoldable pub has_event : Uuid → List EventRow → Bool
has_event id [] = false
has_event id (r ∷ rs) = r.id == id || has_event id rs

-- `EventPublisher::publish`
unfoldable pub publish_event :
    (ℕ → Bool)
    → Uuid
    → ℤ
    → LifecycleEvent
    → Database
    → Result (Unit {0}) EventPublisherError × Database
publish_event fails id at e db =
    if fails 0
    then (err (publish "inserting lifecycle event"), db)
    else if has_event id db.events
    then (err (publish "inserting lifecycle event"), db)
    else elim (find_email (has_id (email_id e)) db.emails) [
      | none ↦ (err (publish "inserting lifecycle event"), db)
      | some _ ↦ (ok tt, record db { events = db.events ++ event_row id at e ∷ [] })
    ]

-- A clause that is pushed only for a parameter that is given.
abbrev pub given : {A : Type 0} → Option A → (A → Bool) → Bool
given none p = true
given (some a) p = p a

-- `column = ?`, which is not true of NULL.
abbrev pub is_text : Option String → String → Bool
is_text none value = false
is_text (some s) value = str_eq s value

-- The WHERE clause of `list_events`.
unfoldable pub matches_event : ListEventsParams → EventRow → Bool
matches_event params row =
    given params.email_id (λ id. same_id row.email_id id)
    && given params.event_type (λ type. str_eq row.event_type type)
    && given params.sender_name (λ name. is_text row.sender_name name)
    && given params.error_class (λ class. is_text row.error_class (as_str class))
    && given params.after_ms (λ after. ltb_ℤ after row.created_at)
    && given params.before_ms (λ before. ltb_ℤ row.created_at before)

-- `ORDER BY created_at DESC, id DESC`
unfoldable pub is_newer : EventRow → EventRow → Bool
is_newer a b = ltb_ℤ b.created_at a.created_at || (eqb_ℤ a.created_at b.created_at && ltb b.id a.id)

unfoldable pub to_event_record : EventRow → EventRecord
to_event_record row = record {
  id = row.id;
  email_id = row.email_id;
  event_type = row.event_type;
  payload = row.payload;
  sender_name = elim row.sender_name [ some n ↦ some (record { as_str = n }) | none ↦ none ];
  error_class = row.error_class;
  created_at_ms = row.created_at;
}

-- The rows that `list_events` reads.
abbrev pub selected_events : ListEventsParams → List EventRow → List EventRow
selected_events params rows = page is_newer (matches_event params) params.limit params.offset rows

unfoldable pub list_events :
    (ℕ → Bool) → ListEventsParams → Database → Result (List EventRecord) EventRepositoryError
list_events fails params db =
    if fails 0
    then err (storage "listing lifecycle events")
    else ok (map to_event_record (selected_events params db.events))

-- The rows that GROUP BY makes: the counts of deliveries and of failures by the sender's name.
abbrev pub Tally : Type 0
Tally = List (String × (ℕ × ℕ))

unfoldable pub count_event : String → Bool → Tally → Tally
count_event name delivered [] = (name, if delivered then (1, 0) else (0, 1)) ∷ []
count_event name delivered ((n, (sent, lost)) ∷ rest) =
    if str_eq n name
    then (n, if delivered then (suc sent, lost) else (sent, suc lost)) ∷ rest
    else (n, (sent, lost)) ∷ count_event name delivered rest

-- `sender_name IN (...)`
unfoldable pub contains_name : String → List SenderName → Bool
contains_name name [] = false
contains_name name (n ∷ ns) = str_eq n.as_str name || contains_name name ns

abbrev pub is_delivery : EventRow → Bool
is_delivery row = str_eq row.event_type "delivery.succeeded"

abbrev pub is_failure : EventRow → Bool
is_failure row = str_eq row.event_type "delivery.failed"

-- The name to count an event under, if the WHERE clause of `get_stats` lets it pass.
unfoldable pub counted_name : List SenderName → ℤ → EventRow → Option String
counted_name names since row =
    if (is_delivery row || is_failure row) && not (ltb_ℤ row.created_at since)
    then (elim row.sender_name [
      | some name ↦ if contains_name name names then some name else none
      | none ↦ none
    ])
    else none

unfoldable pub tally : List SenderName → ℤ → List EventRow → Tally
tally names since [] = []
tally names since (r ∷ rs) =
    let rest = tally names since rs in
    elim (counted_name names since r) [
      | some name ↦ count_event name (is_delivery r) rest
      | none ↦ rest
    ]

-- `map.remove(name).unwrap_or((0, 0))`: the counts, and the map without the name.
unfoldable pub counts_of : String → Tally → ℕ × ℕ
counts_of name [] = (0, 0)
counts_of name ((n, counts) ∷ rest) = if str_eq n name then counts else counts_of name rest

unfoldable pub remove_name : String → Tally → Tally
remove_name name rows = filter (λ entry. not (str_eq entry.0 name)) rows

unfoldable pub take_stats : List SenderName → Tally → List SenderStats
take_stats [] rows = []
take_stats (n ∷ ns) rows =
    record {
      name = n;
      sent_in_range = (counts_of n.as_str rows).0;
      failed_in_range = (counts_of n.as_str rows).1;
    }
    ∷ take_stats ns (remove_name n.as_str rows)

-- `SenderUsage::get_stats`
unfoldable pub get_stats :
    (ℕ → Bool) → List SenderName → ℤ → Database → Result (List SenderStats) SenderUsageError
get_stats fails [] since db = ok []
get_stats fails (n ∷ ns) since db =
    if fails 0
    then err (storage "querying sender stats")
    else ok (take_stats (n ∷ ns) (tally (n ∷ ns) since db.events))
