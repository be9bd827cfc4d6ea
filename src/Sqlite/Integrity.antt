-- ===== src/Sqlite/Integrity.antt =====
-- The whole SQLite adapter as one state: which rows the operations can leave behind.
use catapulte.Common.{
  List, [], ◌∷◌, ◌++◌, ◌≡◌, refl, Bool, true, false, not, none, some, All, filter, arith,
  Bool-cases, inl, inr,
}
use catapulte.Entity.{EmailId}
use catapulte.Port.Trace.{same_id}
use catapulte.Sqlite.Dto.{EnvelopeBodyDtoDeser}
use catapulte.Sqlite.{
  Database, EmailRow, EventRow, QueueRow, conflicts, find_email, has_id, update_body,
}
use catapulte.Sqlite.Listing.{has_entry_of, has_event_of}

abbrev pub is_stored : List EmailRow → EmailId → Bool
is_stored emails id = elim (find_email (has_id id) emails) [ some _ ↦ true | none ↦ false ]

-- No two rows share an id or an idempotency key.
abbrev pub AreDistinct : List EmailRow → Type 0
AreDistinct [] = Unit {0}
AreDistinct (r ∷ rs) = All (λ s. conflicts s r ≡ false) rs × AreDistinct rs

-- The emails are distinct, and every event and every queue entry is one of a stored email.
abbrev pub IsSound : Database → Type 0
IsSound db =
    AreDistinct db.emails
    × All (λ r. is_stored db.emails r.email_id ≡ true) db.events
    × All (λ r. is_stored db.emails r.email_id ≡ true) db.queue

module _ {A : Type 0} where
  pub All-append : (P : A → Type 0) (xs : List A) (x : A) → All P xs → P x → All P (xs ++ x ∷ [])
  All-append P [] x all p = (p, tt)
  All-append P (y ∷ ys) x all p = (all.0, All-append P ys x all.1 p)

  pub All-filter : (P : A → Type 0) (p : A → Bool) (xs : List A) → All P xs → All P (filter p xs)
  All-filter P p [] all = tt
  All-filter P p (x ∷ xs) all = elim (Bool-cases (p x)) [
    | inl e ↦ rw e (all.0, All-filter P p xs all.1)
    | inr e ↦ rw e (All-filter P p xs all.1)
  ]

  pub All-imp : (P Q : A → Type 0) (xs : List A) → ((x : A) → P x → Q x) → All P xs → All Q xs
  All-imp P Q [] f all = tt
  All-imp P Q (x ∷ xs) f all = (f x all.0, All-imp P Q xs f all.1)

-- Emails are added.
pub is_stored-append :
    (rows : List EmailRow) (new : EmailRow) (id : EmailId)
    → is_stored rows id ≡ true
    → is_stored (rows ++ new ∷ []) id ≡ true
unfolding find_email
is_stored-append [] new id h = cc
is_stored-append (r ∷ rs) new id h = ground (arith, h, is_stored-append rs new id)

pub free-All :
    (new : EmailRow) (rows : List EmailRow)
    → find_email (conflicts new) rows ≡ none
    → All (λ r. conflicts new r ≡ false) rows
unfolding find_email
free-All new [] h = tt
free-All new (r ∷ rs) h = elim (Bool-cases (conflicts new r)) [
  | inl e ↦ absurd (ground (arith, e, h))
  | inr e ↦ (e, free-All new rs (ground (arith, e, h)))
]

pub AreDistinct-append :
    (rows : List EmailRow) (new : EmailRow)
    → AreDistinct rows
    → All (λ r. conflicts new r ≡ false) rows
    → AreDistinct (rows ++ new ∷ [])
AreDistinct-append [] new d all = (tt, tt)
AreDistinct-append (r ∷ rs) new d all =
    (All-append (λ s. conflicts s r ≡ false) rs new d.0 all.0, AreDistinct-append rs new d.1 all.1)

-- The body of an email is replaced.
pub is_stored-update :
    (id : EmailId) (body : EnvelopeBodyDtoDeser) (rows : List EmailRow) (j : EmailId)
    → is_stored (update_body id body rows) j ≡ is_stored rows j
unfolding find_email update_body
is_stored-update id body [] j = refl
is_stored-update id body (r ∷ rs) j = ground (arith, is_stored-update id body rs j)

All-update :
    (P : EmailRow → Type 0) (id : EmailId) (body : EnvelopeBodyDtoDeser) (rows : List EmailRow)
    → ((r : EmailRow) → P r → P (record r { body = body }))
    → All P rows
    → All P (update_body id body rows)
unfolding update_body
All-update P id body [] f all = tt
All-update P id body (r ∷ rs) f all = elim (Bool-cases (same_id r.id id)) [
  | inl e ↦ rw (e, update_body) (f r all.0, All-update P id body rs f all.1)
  | inr e ↦ rw (e, update_body) (all.0, All-update P id body rs f all.1)
]

pub AreDistinct-update :
    (id : EmailId) (body : EnvelopeBodyDtoDeser) (rows : List EmailRow)
    → AreDistinct rows
    → AreDistinct (update_body id body rows)
unfolding update_body conflicts
AreDistinct-update id body [] d = tt
AreDistinct-update id body (r ∷ rs) d = elim (Bool-cases (same_id r.id id)) [
  | inl e ↦
      rw (e, update_body)
        (
          All-update (λ s. conflicts s r ≡ false) id body rs (λ s h. h) d.0,
          AreDistinct-update id body rs d.1,
        )
  | inr e ↦
      rw (e, update_body)
        (
          All-update (λ s. conflicts s r ≡ false) id body rs (λ s h. h) d.0,
          AreDistinct-update id body rs d.1,
        )
]

-- An email to which nothing refers is deleted.
is_stored-delete :
    (id j : EmailId) (rows : List EmailRow)
    → same_id j id ≡ false
    → is_stored rows j ≡ true
    → is_stored (filter (λ row. not (has_id id row)) rows) j ≡ true
unfolding find_email
is_stored-delete id j [] other h = h
is_stored-delete id j (r ∷ rs) other h = ground (arith, other, h, is_stored-delete id j rs other)

pub AreDistinct-filter :
    (p : EmailRow → Bool) (rows : List EmailRow) → AreDistinct rows → AreDistinct (filter p rows)
AreDistinct-filter p [] d = tt
AreDistinct-filter p (r ∷ rs) d = elim (Bool-cases (p r)) [
  | inl e ↦ rw e (All-filter _ p rs d.0, AreDistinct-filter p rs d.1)
  | inr e ↦ rw e (AreDistinct-filter p rs d.1)
]

pub events-delete :
    (id : EmailId) (emails : List EmailRow) (events : List EventRow)
    → has_event_of id events ≡ false
    → All (λ r. is_stored emails r.email_id ≡ true) events
    → All (λ r. is_stored (filter (λ row. not (has_id id row)) emails) r.email_id ≡ true) events
unfolding has_event_of
events-delete id emails [] free all = tt
events-delete id emails (r ∷ rs) free all = (
  is_stored-delete id r.email_id emails (ground (arith, free)) all.0,
  events-delete id emails rs (ground (arith, free)) all.1,
)

pub entries-delete :
    (id : EmailId) (emails : List EmailRow) (queue : List QueueRow)
    → has_entry_of id queue ≡ false
    → All (λ r. is_stored emails r.email_id ≡ true) queue
    → All (λ r. is_stored (filter (λ row. not (has_id id row)) emails) r.email_id ≡ true) queue
unfolding has_entry_of
entries-delete id emails [] free all = tt
entries-delete id emails (r ∷ rs) free all = (
  is_stored-delete id r.email_id emails (ground (arith, free)) all.0,
  entries-delete id emails rs (ground (arith, free)) all.1,
)
