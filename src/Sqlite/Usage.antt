-- ===== src/Sqlite/Usage.antt =====
-- What the quota check reads of the deliveries in the table of events.
use catapulte.Common.{
  ℕ, suc, String, List, [], ◌∷◌, ◌++◌, ◌≡◌, refl, sym, ◌∙◌, ap, Bool, true, false, not, ◌&&◌,
  Option, none, some, filter, length, arith, str_eq, eq_iff, ◌==◌, if◌then◌else◌,
}
use catapulte.Common.Int.{ℤ, ltb_ℤ}
use catapulte.Entity.{EmailId, Uuid}
use catapulte.Entity.LifecycleEvent.{LifecycleEvent, email_id, event_type, sender_name}
use catapulte.Entity.Sender.{SenderName}
use catapulte.Routing.{SentMap, merge_answer, record_stats, sent_of}
use catapulte.Sqlite.{Database, EmailRow, EventRow, find_email, has_id}
use catapulte.Sqlite.Stored.{no_fault}
use catapulte.Sqlite.Events.{
  Tally, contains_name, count_event, counted_name, counts_of, get_stats, is_delivery, is_text,
  event_row, has_event, publish_event, remove_name, take_stats, tally,
}

-- A delivery by the sender, since the time.
abbrev pub is_delivery_of : String → ℤ → EventRow → Bool
is_delivery_of name since row =
    is_delivery row && not (ltb_ℤ row.created_at since) && is_text row.sender_name name

abbrev pub deliveries : String → ℤ → List EventRow → ℕ
deliveries name since rows = length (filter (is_delivery_of name since) rows)

-- How often a name is listed.
abbrev pub occurrences : String → List SenderName → ℕ
occurrences name names = length (filter (λ n. str_eq n.as_str name) names)

counts-count_event :
    (name m : String) (d : Bool) (t : Tally)
    → (counts_of m (count_event name d t)).0
      ≡ (if str_eq name m && d then suc (counts_of m t).0 else (counts_of m t).0)
unfolding counts_of count_event
counts-count_event name m true [] = ground arith
counts-count_event name m false [] = ground arith
counts-count_event name m true ((n, (sent, lost)) ∷ rest) =
    ground (arith, eq_iff n name, eq_iff n m, eq_iff name m, counts-count_event name m true rest)
counts-count_event name m false ((n, (sent, lost)) ∷ rest) =
    ground (arith, eq_iff n name, eq_iff n m, eq_iff name m, counts-count_event name m false rest)

counts-remove_name :
    (name m : String) (t : Tally)
    → (counts_of m (remove_name name t)).0 ≡ (if str_eq name m then 0 else (counts_of m t).0)
unfolding counts_of remove_name
counts-remove_name name m [] = ground arith
counts-remove_name name m ((n, (sent, lost)) ∷ rest) =
    ground (arith, eq_iff n name, eq_iff n m, eq_iff name m, counts-remove_name name m rest)

contains-equal :
    (n m : String) (names : List SenderName)
    → str_eq n m ≡ true
    → contains_name n names ≡ contains_name m names
contains-equal n m names e = ap (λ s. contains_name s names) ((eq_iff n m).0 e)

counts-row :
    (names : List SenderName) (since : ℤ) (m : String) (r : EventRow) (rest : Tally)
    (name : Option String)
    → r.sender_name ≡ name
    → (counts_of m (elim (counted_name names since r) [
      | some n ↦ count_event n (is_delivery r) rest
      | none ↦ rest
    ])).0
      ≡ (if contains_name m names && is_delivery_of m since r
          then suc (counts_of m rest).0
          else (counts_of m rest).0)
unfolding counted_name
counts-row names since m r rest none e = rw e (ground (arith, e))
counts-row names since m r rest (some n) e = rw e (
    ground
      (arith, e, eq_iff n m, contains-equal n m names, counts-count_event n m (is_delivery r) rest))

-- A delivery among the events that are counted is one of a listed name.
counts-tally :
    (names : List SenderName) (since : ℤ) (m : String) (rows : List EventRow)
    → (counts_of m (tally names since rows)).0
      ≡ (if contains_name m names then deliveries m since rows else 0)
unfolding counts_of tally
counts-tally names since m [] = ground arith
counts-tally names since m (r ∷ rs) = ground (
  arith,
  counts-row names since m r (tally names since rs) r.sender_name refl,
  counts-tally names since m rs,
)

sent-take_stats :
    (names : List SenderName) (m : SenderName) (t : Tally) (sent : SentMap)
    → sent_of m (record_stats (take_stats names t) sent) ≡ (
        if occurrences m.as_str names == 0
        then sent_of m sent
        else if occurrences m.as_str names == 1
        then (counts_of m.as_str t).0
        else 0)
unfolding sent_of record_stats take_stats
sent-take_stats [] m t sent = refl
sent-take_stats (n ∷ ns) m t sent = ground (
  arith,
  eq_iff n.as_str m.as_str,
  counts-remove_name n.as_str m.as_str t,
  sent-take_stats ns m (remove_name n.as_str t) ((n, (counts_of n.as_str t).0) ∷ sent),
)

occurrences-contains :
    (m : String) (names : List SenderName) → contains_name m names ≡ not (occurrences m names == 0)
unfolding contains_name
occurrences-contains m [] = refl
occurrences-contains m (n ∷ ns) = ground (arith, occurrences-contains m ns)

-- What the quota check reads of a sender, after one query for the names: the number of its
-- deliveries since the time if its name is listed once, and 0 if it is listed more often.
pub get_stats-sent_of :
    (m : SenderName) (since : ℤ) (names : List SenderName) (db : Database)
    → sent_of m (merge_answer (get_stats no_fault names since db) [])
      ≡ (if occurrences m.as_str names == 1 then deliveries m.as_str since db.events else 0)
unfolding get_stats merge_answer sent_of
get_stats-sent_of m since [] db = refl
get_stats-sent_of m since (n ∷ ns) db = ground (
  arith,
  sent-take_stats (n ∷ ns) m (tally (n ∷ ns) since db.events) [],
  counts-tally (n ∷ ns) since m.as_str db.events,
  occurrences-contains m.as_str (n ∷ ns),
)

deliveries-append :
    (m : String) (since : ℤ) (rows : List EventRow) (new : EventRow)
    → is_delivery_of m since new ≡ true
    → deliveries m since (rows ++ new ∷ []) ≡ suc (deliveries m since rows)
deliveries-append m since [] new h = rw h refl
deliveries-append m since (r ∷ rs) new h = ground (arith, deliveries-append m since rs new h)

get_stats-once :
    (m : SenderName) (since : ℤ) (names : List SenderName) (db : Database)
    → occurrences m.as_str names ≡ 1
    → sent_of m (merge_answer (get_stats no_fault names since db) [])
      ≡ deliveries m.as_str since db.events
get_stats-once m since names db once = ground (arith, once, get_stats-sent_of m since names db)

-- Once the delivery of a stored email is published under a new id, inside the window of the quota
-- of its sender, the quota check counts one email more for that sender, if its name is listed once.
pub publish_event-sent_of :
    (m : SenderName) (since at : ℤ) (names : List SenderName) (id : Uuid) (email : EmailId)
    (correlation_id : Option String) (row : EmailRow) (db : Database)
    → occurrences m.as_str names ≡ 1
    → has_event id db.events ≡ false
    → find_email (has_id email) db.emails ≡ some row
    → ltb_ℤ at since ≡ false
    → let db' = (publish_event no_fault id at (LifecycleEvent.sent email m correlation_id) db).1 in
      (sent_of m (merge_answer (get_stats no_fault names since db') [])
        ≡ suc (sent_of m (merge_answer (get_stats no_fault names since db) [])))
unfolding publish_event event_row event_type email_id sender_name
publish_event-sent_of m since at names id email correlation_id row db once fresh found inside =
    let once_of = λ (d : Database). get_stats-once m since names d once in
    let e = LifecycleEvent.sent email m correlation_id in
    rw (fresh, publish_event)
      (rw (found, publish_event)
        (once_of (record db { events = db.events ++ event_row id at e ∷ [] })
          ∙ (deliveries-append m.as_str since db.events (event_row id at e)
                (rw inside ((eq_iff m.as_str m.as_str).1 refl))
              ∙ ap (λ n. suc n) (sym (once_of db)))))
