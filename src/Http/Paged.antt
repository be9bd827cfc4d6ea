-- ===== src/Http/Paged.antt =====
-- The listing of emails, from the query of a request down to the rows of the SQLite database.
use catapulte.Common.{
  ℕ, ◌≤◌, Bool, String, List, [], ◌∷◌, ◌≡◌, ◌∙◌, refl, sym, ap, subst, Option, none, some, Result,
  ok, map, length, min, All, arith, ok-step, ok-injective,
}
use catapulte.Entity.{AnyError, EmailId, Uuid}
use catapulte.Port.Queries.{EmailRecord, EmailStatus, ListEmailsError, ListEmailsParams}
use catapulte.Port.Queries as Queries
use catapulte.Sqlite.{Database}
use catapulte.Sqlite.Stored.{no_fault}
use catapulte.Sqlite.Listing as Listing
use catapulte.Common.Paging.{length-page}
use catapulte.Sqlite.Listing.{is_listed, is_newer_email, selected_emails, to_email_record}
use catapulte.Sqlite.Status.{list_emails-status, records}
use catapulte.Http.Listings.{
  EmailRecordDto, EmailStatusDto, ListEmailsQuery, ListEmailsResponse, email_to_dto, emails_params,
  limit_of, list_emails, max_limit, parse_id, print_status, status_from_dto, unwrap_or,
}

limit_of-max : (l : Option ℕ) → limit_of l ≤ max_limit
unfolding limit_of
limit_of-max l = omega arith

map-length : {A B : Type 0} (f : A → B) (xs : List A) → length (map f xs) ≡ length xs
map-length f [] = refl
map-length f (x ∷ xs) = omega (arith, map-length f xs)

module _ (parse_uuid : String → Result Uuid AnyError) (print_uuid : Uuid → String)
    (like : String → String → Bool) (db : Database) where
  -- The use case over the SQLite adapter.
  abbrev pub stored_emails : ListEmailsParams → Result (List EmailRecord) ListEmailsError
  stored_emails params = Queries.list_emails (Listing.list_emails like no_fault params db)

  stored_emails-records :
      (params : ListEmailsParams)
      → stored_emails params ≡ ok (records (Listing.list_emails like no_fault params db))
  unfolding Queries.list_emails Listing.list_emails
  stored_emails-records params = refl

  records-few :
      (params : ListEmailsParams)
      → length (records (Listing.list_emails like no_fault params db)) ≤ params.limit
  unfolding Listing.list_emails
  records-few params = omega (
    arith,
    map-length (to_email_record db.events) (selected_emails like params db),
    length-page is_newer_email (is_listed like params db.events) params.limit params.offset
        db.emails,
  )

  -- A response for a status has only records that say so.
  abbrev pub SaysStatus : Option EmailStatusDto → List EmailRecordDto → Type 0
  SaysStatus none rs = Unit {0}
  SaysStatus (some s) rs = All (λ r. r.status ≡ print_status (status_from_dto s)) rs

  All-dto :
      (s : EmailStatus) (rs : List EmailRecord)
      → All (λ r. r.status ≡ s) rs
      → All (λ r. r.status ≡ print_status s) (map (email_to_dto parse_uuid print_uuid) rs)
  unfolding email_to_dto
  All-dto s [] all = tt
  All-dto s (r ∷ rs) all = (ap print_status all.0, All-dto s rs all.1)

  params-SaysStatus :
      (status : Option EmailStatusDto) (query : ListEmailsQuery) (id : Option EmailId)
      → query.status ≡ status
      → SaysStatus status (
          map (email_to_dto parse_uuid print_uuid) (
            records (
              Listing.list_emails like no_fault (emails_params parse_uuid print_uuid query id) db)))
  params-SaysStatus none query id e = tt
  params-SaysStatus (some s) query id e =
      All-dto (status_from_dto s) _
        (list_emails-status like (emails_params parse_uuid print_uuid query id) (status_from_dto s)
          db (rw e refl)).0

  -- At most the records that the query asks for, never more than 100, with the limit and the offset
  -- that were used; if the query asks for a status, every record says that status.
  abbrev pub IsPage : ListEmailsQuery → ListEmailsResponse → Type 0
  IsPage query response =
      (length response.emails ≤ response.limit)
      × (response.limit ≤ 100)
      × (response.limit ≡ min (unwrap_or query.limit 20) 100)
      × (response.offset ≡ unwrap_or query.offset 0)
      × SaysStatus query.status response.emails

  abbrev page_of : ListEmailsQuery → List EmailRecord → ListEmailsResponse
  page_of query rs = record {
    emails = map (email_to_dto parse_uuid print_uuid) rs;
    limit = limit_of query.limit;
    offset = unwrap_or query.offset 0;
  }

  records-IsPage :
      (query : ListEmailsQuery) (id : Option EmailId)
      → let params = emails_params parse_uuid print_uuid query id in
        IsPage query (page_of query (records (Listing.list_emails like no_fault params db)))
  unfolding limit_of
  records-IsPage query id =
      let params = emails_params parse_uuid print_uuid query id in
      let rs = records (Listing.list_emails like no_fault params db) in
      (
        omega (arith, records-few params, map-length (email_to_dto parse_uuid print_uuid) rs),
        limit_of-max query.limit,
        refl,
        refl,
        params-SaysStatus query.status query id refl,
      )

  -- The response to a listing of emails over the SQLite adapter is such a page: at most as many
  -- records as the query asks for, never more than 100 (20 by default), and only records that say the
  -- status which the query asks for.
  pub list_emails-IsPage :
      (query : ListEmailsQuery) (response : ListEmailsResponse)
      → list_emails parse_uuid print_uuid stored_emails query ≡ ok response
      → IsPage query response
  unfolding list_emails
  list_emails-IsPage query response e =
      let (id, _, more) = ok-step (parse_id parse_uuid print_uuid query.id) _ _ response e in
      let params = emails_params parse_uuid print_uuid query id in
      let (rs, listed, same) = ok-step (stored_emails params) _ _ response more in
      let are = ok-injective _ rs (sym (stored_emails-records params) ∙ listed) in
      subst (IsPage query) (ok-injective _ response same)
        (subst (λ x. IsPage query (page_of query x)) are (records-IsPage query id))
