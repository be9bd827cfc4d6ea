-- ===== src/Sqlite/Status.antt =====
-- The status of an email, and the listings that depend on it.
use catapulte.Common.{
  ℕ, ◌+◌, ◌≤◌, String, List, [], ◌∷◌, ◌++◌, ◌≡◌, refl, ap, subst, sym, Bool, true, false, some,
  Result, ok, err, map, ◌↔◌, ◌∙◌, length, arith, str_eq, eq_iff, All, Elem, inl, inr,
}
use catapulte.Common.Int.{ℤ}
use catapulte.Common.Sorting.{IsSorted}
use catapulte.Common.Paging.{page, page-All, page-page, page-IsSorted, Elem-page}
use catapulte.Entity.{EmailId, Uuid}
use catapulte.Entity.LifecycleEvent.{LifecycleEvent, email_id, event_type}
use catapulte.Port.Queries.{EmailStatus, ListEmailsParams, ListEventsParams, queued, sent, failed}
use catapulte.Port.Trace.{same_id}
use catapulte.Sqlite.{Database, EmailRow, EventRow, find_email, has_id}
use catapulte.Sqlite.Stored.{no_fault}
use catapulte.Sqlite.Events.{
  event_row, has_event, to_event_record, is_newer, matches_event, list_events, publish_event,
  selected_events,
}
use catapulte.Sqlite.Listing.{
  has_status, is_listed, matches_email, selected_emails, is_newer_email, latest, latest_event_type,
  list_emails, newer, status_of_type, to_email_record,
}

latest-append :
    (id : EmailId) (rows : List EventRow) (new : EventRow)
    → same_id new.email_id id ≡ true
    → All (λ r. same_id r.email_id id ≡ true → is_newer new r ≡ true) rows
    → latest id (rows ++ new ∷ []) ≡ some new
unfolding latest newer
latest-append id [] new same all = rw (same, latest) refl
latest-append id (r ∷ rs) new same all = ground (arith, all.0, latest-append id rs new same all.1)

-- What an event says of its email.
abbrev pub status_after : LifecycleEvent → EmailStatus
status_after (LifecycleEvent.sent _ _ _) = sent
status_after (LifecycleEvent.failed _ _ _ _ _ _) = failed
status_after _ = queued

status_of_type-event_type : (e : LifecycleEvent) → status_of_type (event_type e) ≡ status_after e
unfolding status_of_type event_type
status_of_type-event_type (LifecycleEvent.queued _ _) = refl
status_of_type-event_type (LifecycleEvent.sending _ _ _) = refl
status_of_type-event_type (LifecycleEvent.sent _ _ _) = refl
status_of_type-event_type (LifecycleEvent.retrying _ _ _ _ _ _) = refl
status_of_type-event_type (LifecycleEvent.failed _ _ _ _ _ _) = refl

-- An event that is published, newer than the other events of its email, decides the status with
-- which the email is listed from then on.
pub publish-status :
    (id : Uuid) (at : ℤ) (e : LifecycleEvent) (row : EmailRow) (db : Database)
    → has_event id db.events ≡ false
    → find_email (has_id (email_id e)) db.emails ≡ some row
    → All
        (λ r. same_id r.email_id (email_id e) ≡ true → is_newer (event_row id at e) r ≡ true)
        db.events
    → let (result, db') = publish_event no_fault id at e db in
      (result ≡ ok tt)
      × (status_of_type (latest_event_type (email_id e) db'.events) ≡ status_after e)
unfolding publish_event latest_event_type event_row
publish-status id at e row db fresh found newest =
    rw (fresh, publish_event)
      (rw (found, publish_event)
        (
          refl,
          rw
              (
                latest-append (email_id e) db.events (event_row id at e) (ground arith) newest,
                latest_event_type,
              )
              (status_of_type-event_type e),
        ))

is_newer_asymmetric : (x y : EventRow) → is_newer y x ≡ true → is_newer x y ≡ false
unfolding is_newer
is_newer_asymmetric x y h = ground arith

is_newer_chained :
    (x y z : EventRow) → is_newer y x ≡ false → is_newer z y ≡ false → is_newer z x ≡ false
unfolding is_newer
is_newer_chained x y z h k = ground arith

abbrev pub records : {E : Type 0} {A : Type 0} → Result (List A) E → List A
records (ok rs) = rs
records (err _) = []

map-append : {A B : Type 0} (f : A → B) (xs ys : List A) → map f (xs ++ ys) ≡ map f xs ++ map f ys
map-append f [] ys = refl
map-append f (x ∷ xs) ys = ap (λ l. f x ∷ l) (map-append f xs ys)

-- A page of events and the page that starts where it ends are together the page of both lengths:
-- no event is lost or repeated between them. The rows of a page pass the filters, newest first.
pub list_events-pages :
    (params : ListEventsParams) (more : ℕ) (db : Database)
    → let next = record params { limit = more; offset = params.offset + params.limit } in
      let both = record params { limit = params.limit + more } in
      (records (list_events no_fault params db) ++ records (list_events no_fault next db)
        ≡ records (list_events no_fault both db))
      × IsSorted is_newer (selected_events params db.events)
      × All (λ r. matches_event params r ≡ true) (selected_events params db.events)
unfolding list_events matches_event
list_events-pages params more db =
    let rows = selected_events params db.events in
    let p = matches_event params in
    (
      sym (map-append to_event_record rows _)
          ∙ ap (map to_event_record)
              (page-page is_newer p params.limit more params.offset db.events),
      page-IsSorted is_newer is_newer_asymmetric is_newer_chained p params.limit params.offset
          db.events,
      page-All is_newer p params.limit params.offset db.events,
    )

not_both :
    (type : String)
    → str_eq type "delivery.failed" ≡ true
    → str_eq type "delivery.succeeded" ≡ false
not_both type e = rw ((eq_iff type "delivery.failed").0 e) refl

has_status_iff :
    (type : String) (s : EmailStatus) → (has_status type s ≡ true) ↔ (status_of_type type ≡ s)
unfolding has_status status_of_type
has_status_iff type sent = ground arith
has_status_iff type failed = ground (arith, not_both type)
has_status_iff type queued = ground arith

module _ (like : String → String → Bool) where
  listed-status :
      (params : ListEmailsParams) (s : EmailStatus) (events : List EventRow) (row : EmailRow)
      → params.status ≡ some s
      → is_listed like params events row ≡ true
      → (to_email_record events row).status ≡ s
  unfolding is_listed to_email_record
  listed-status params s events row given listed =
      ground (arith, given, listed, has_status_iff (latest_event_type row.id events) s)

  status-listed :
      (params : ListEmailsParams) (s : EmailStatus) (events : List EventRow) (row : EmailRow)
      → params.status ≡ some s
      → matches_email like params row ≡ true
      → (to_email_record events row).status ≡ s
      → is_listed like params events row ≡ true
  unfolding is_listed to_email_record
  status-listed params s events row given matched same =
      ground (arith, given, matched, same, has_status_iff (latest_event_type row.id events) s)

  All-map :
      (params : ListEmailsParams) (s : EmailStatus) (events : List EventRow) (rows : List EmailRow)
      → params.status ≡ some s
      → All (λ r. is_listed like params events r ≡ true) rows
      → All (λ r. r.status ≡ s) (map (to_email_record events) rows)
  All-map params s events [] given all = tt
  All-map params s events (r ∷ rs) given all =
      (listed-status params s events r given all.0, All-map params s events rs given all.1)

  Elem-map :
      (events : List EventRow) (row : EmailRow) (rows : List EmailRow)
      → Elem row rows
      → Elem (to_email_record events row) (map (to_email_record events) rows)
  Elem-map events row [] e = elim e [ ]
  Elem-map events row (r ∷ rs) (inl same) = inl (ap (to_email_record events) same)
  Elem-map events row (r ∷ rs) (inr later) = inr (Elem-map events row rs later)

  -- A listing of the emails with a status has only records with that status, and it has, from the
  -- start and with a limit that is not below the number of emails, the record of every email that
  -- passes the other filters and whose record has the status.
  pub list_emails-status :
      (params : ListEmailsParams) (s : EmailStatus) (db : Database)
      → params.status ≡ some s
      → let listing = records (list_emails like no_fault params db) in
        All (λ r. r.status ≡ s) listing
        × ((row : EmailRow)
            → params.offset ≡ 0
            → length db.emails ≤ params.limit
            → Elem row db.emails
            → matches_email like params row ≡ true
            → (to_email_record db.events row).status ≡ s
            → Elem (to_email_record db.events row) listing)
  unfolding list_emails
  list_emails-status params s db given =
      let p = is_listed like params db.events in
      (
        All-map params s db.events _ given
            (page-All is_newer_email p params.limit params.offset db.emails),
        λ row start enough here matched same.
            Elem-map db.events row (selected_emails like params db) (
              subst (λ n. Elem row (page is_newer_email p params.limit n db.emails)) (sym start)
                (Elem-page is_newer_email p params.limit db.emails row enough
                  (status-listed params s db.events row given matched same) here)),
      )
