-- ===== src/Gc/InUse.antt =====
-- The sweep over the listing that the SQLite adapter gives it.
use catapulte.Common.{
  String, ℕ, List, [], ◌∷◌, ◌++◌, ◌≡◌, ◌∙◌, sym, ap, subst, true, false, Result, ok, err, All,
  Bool-cases, Elem, arith, eq_iff, inl, inr,
}
use catapulte.Entity.{BlobRef}
use catapulte.Port.Call.{After, History, Oracle, is_cancelled, list_all_attachment_blobs}
use catapulte.Port.Types.{EmailRepositoryError}
use catapulte.Port.Queries.{queued}
use catapulte.Port.Trace.{deleted, same_blob}
use catapulte.Gc.{SweepError, blob_of, sweep_once}
use catapulte.Gc.Sweep.{SweepOutcome, Swept, delete_keys, orphans, refers_to, sweep_once-outcome}
use catapulte.Sqlite.{Database, EmailRow, EventRow}
use catapulte.Sqlite.Dto.{split}
use catapulte.Sqlite.Stored.{no_fault}
use catapulte.Sqlite.Listing.{blobs_of, collect_blobs, has_status, latest_event_type}
use catapulte.Sqlite.Listing as Listing

Elem-front : (b : BlobRef) (xs ys : List BlobRef) → Elem b xs → Elem b (xs ++ ys)
Elem-front b [] ys e = elim e [ ]
Elem-front b (x ∷ xs) ys (inl same) = inl same
Elem-front b (x ∷ xs) ys (inr later) = inr (Elem-front b xs ys later)

Elem-back : (b : BlobRef) (xs ys : List BlobRef) → Elem b ys → Elem b (xs ++ ys)
Elem-back b [] ys e = e
Elem-back b (x ∷ xs) ys e = inr (Elem-back b xs ys e)

-- The blobs of an email that is neither sent nor failed are listed.
collect_blobs-Elem :
    (events : List EventRow) (rows : List EmailRow) (row : EmailRow) (b : BlobRef)
    → Elem row rows
    → has_status (latest_event_type row.id events) queued ≡ true
    → Elem b (blobs_of (split row.body).1)
    → Elem b (collect_blobs events rows)
unfolding collect_blobs
collect_blobs-Elem events [] row b here pending at = elim here [ ]
collect_blobs-Elem events (r ∷ rs) row b (inl same) pending at =
    rw
      (
        ap (λ x. has_status (latest_event_type x.id events) queued) (sym same) ∙ pending,
        collect_blobs,
      )
      (Elem-front b _ _ (subst (λ x. Elem b (blobs_of (split x.body).1)) same at))
collect_blobs-Elem events (r ∷ rs) row b (inr later) pending at =
    elim (Bool-cases (has_status (latest_event_type r.id events) queued)) [
      | inl e ↦
          rw (e, collect_blobs)
            (Elem-back b _ _ (collect_blobs-Elem events rs row b later pending at))
      | inr e ↦ rw (e, collect_blobs) (collect_blobs-Elem events rs row b later pending at)
    ]

Elem-refers :
    (bs : List BlobRef) (b c : BlobRef) → Elem b bs → refers_to c bs ≡ false → same_blob c b ≡ false
Elem-refers [] b c e none = elim e [ ]
Elem-refers (x ∷ xs) b c (inl same) none = rw same (
    ground (
      arith,
      none,
      eq_iff c.backend x.backend,
      eq_iff x.backend c.backend,
      eq_iff c.key x.key,
      eq_iff x.key c.key,
    ))
Elem-refers (x ∷ xs) b c (inr later) none = Elem-refers xs b c later (ground (arith, none))

-- No blob of a list is among the orphans of the keys.
orphans-All :
    (backend : String) (in_use : List BlobRef) (b : BlobRef) (keys : List String)
    → Elem b in_use
    → All (λ k. same_blob (blob_of backend k) b ≡ false) (orphans backend in_use keys)
orphans-All backend in_use b [] e = tt
orphans-All backend in_use b (k ∷ ks) e = elim (Bool-cases (refers_to (blob_of backend k) in_use)) [
  | inl r ↦ rw r (orphans-All backend in_use b ks e)
  | inr r ↦ rw r (Elem-refers in_use b (blob_of backend k) e r, orphans-All backend in_use b ks e)
]

pub All-front : (P : String → Type 0) (xs ys : List String) → All P (xs ++ ys) → All P xs
All-front P [] ys all = tt
All-front P (x ∷ xs) ys all = (all.0, All-front P xs ys all.1)

-- The blobs of some keys were deleted, and `b` is none of them.
abbrev pub Spared : String → BlobRef → History → History → Type 0
Spared backend b start h =
    (gone : List String) × (deleted h ≡ delete_keys backend gone (deleted start))
    × All (λ k. same_blob (blob_of backend k) b ≡ false) gone

module _ (o : Oracle) where
  Swept-Spared :
      (backend : String) (in_use : List BlobRef) (keys : List String) (b : BlobRef)
      (start h : History)
      → Elem b in_use
      → Swept o backend (orphans backend in_use keys) start h
      → Spared backend b start h
  Swept-Spared backend in_use keys b start h e s = (
    s.done,
    s.gone,
    All-front _ s.done s.left (
        subst (All (λ k. same_blob (blob_of backend k) b ≡ false)) s.split
          (orphans-All backend in_use b keys e)),
  )

  outcome-Spared :
      (backend : String) (grace : ℕ) (in_use : List BlobRef) (b : BlobRef) (start h : History)
      (r : Result (Unit {0}) SweepError)
      → o (is_cancelled ∷ start) list_all_attachment_blobs ≡ ok in_use
      → Elem b in_use
      → SweepOutcome o backend grace start r h
      → Spared backend b start h
  outcome-Spared backend grace in_use b start h (err _) listed e same = ([], same, tt)
  outcome-Spared backend grace in_use b start h (ok _) listed e (inl stopped) = ([], stopped.1, tt)
  outcome-Spared backend grace in_use b start h (ok _) listed e (inr (bs, keys, l, f, s)) =
      let unwrap : Result (List BlobRef) EmailRepositoryError → List BlobRef =
        λ r. elim r [ ok x ↦ x | err _ ↦ [] ] in
      Swept-Spared backend bs keys b start h (subst (Elem b) (ap unwrap (sym listed ∙ l)) e) s

  -- Where the sweep is given the SQLite adapter's listing of the blobs in use, it spares every blob
  -- of every stored email whose newest event is neither a delivery nor a failure.
  pub sweep_once-in_use :
      (backend : String) (grace : ℕ) (start : History) (db : Database) (row : EmailRow)
      (b : BlobRef)
      → o (is_cancelled ∷ start) list_all_attachment_blobs
        ≡ Listing.list_all_attachment_blobs no_fault db
      → Elem row db.emails
      → has_status (latest_event_type row.id db.events) queued ≡ true
      → Elem b (blobs_of (split row.body).1)
      → After (λ _ h. Spared backend b start h) start (sweep_once o backend grace)
  unfolding Listing.list_all_attachment_blobs
  sweep_once-in_use backend grace start db row b listed here pending at =
      outcome-Spared backend grace (collect_blobs db.events db.emails) b start _ _ listed
        (collect_blobs-Elem db.events db.emails row b here pending at)
        (sweep_once-outcome o backend grace start)
