-- ===== src/SubmitEmail/RollBack.antt =====
-- What a failed submission leaves behind: `roll_back` and the loop over the attachments.
use catapulte.Common.{
  List, [], ◌∷◌, ◌++◌, ◌≡◌, refl, Bool, true, false, ◌||◌, not, ◌&&◌, Result, ok, err, arith,
  Result-elim,
}
use catapulte.Entity.{AttachmentRef, BlobRef, EmailId}
use catapulte.Port.Types.{PutResult, AttachmentReader, AttachmentStoreError}
use catapulte.Port.Call.{After, History, Oracle, delete_blob, put}
use catapulte.Port.Trace.{blob_live, row_live, enqueued, published, same_blob}
use catapulte.SubmitEmail.{
  AttachmentInput, inline, stream, remote, attachment_ref, delete_blobs, roll_back,
  store_attachments, open_reader, SubmitEmailError, attachment_store, attachment_fetch,
}

-- `b` is among the blobs of `refs`.
abbrev pub has_blob : BlobRef → List AttachmentRef → Bool
has_blob b [] = false
has_blob b (r ∷ rest) = same_blob r.blob b || has_blob b rest

pub has_blob-append :
    (b : BlobRef) (xs : List AttachmentRef) (r : AttachmentRef)
    → has_blob b (xs ++ r ∷ []) ≡ has_blob b xs || same_blob r.blob b
has_blob-append b [] r = ground arith
has_blob-append b (x ∷ xs) r = ground (arith, has_blob-append b xs r)

module _ (o : Oracle) where
  blob_live-delete_blobs :
      (b : BlobRef) (refs : List AttachmentRef) (h : History)
      → blob_live o b (delete_blobs o refs h).1 ≡ not (has_blob b refs) && blob_live o b h
  unfolding delete_blobs
  blob_live-delete_blobs b [] h = refl
  blob_live-delete_blobs b (r ∷ rest) h =
      ground (arith, blob_live-delete_blobs b rest (delete_blob r.blob ∷ h))

  row_live-delete_blobs :
      (id : EmailId) (refs : List AttachmentRef) (h : History)
      → row_live o id (delete_blobs o refs h).1 ≡ row_live o id h
  unfolding delete_blobs
  row_live-delete_blobs id [] h = refl
  row_live-delete_blobs id (r ∷ rest) h = row_live-delete_blobs id rest (delete_blob r.blob ∷ h)

  enqueued-delete_blobs :
      (refs : List AttachmentRef) (h : History)
      → enqueued o (delete_blobs o refs h).1 ≡ enqueued o h
  unfolding delete_blobs
  enqueued-delete_blobs [] h = refl
  enqueued-delete_blobs (r ∷ rest) h = enqueued-delete_blobs rest (delete_blob r.blob ∷ h)

  published-delete_blobs :
      (refs : List AttachmentRef) (h : History) → published (delete_blobs o refs h).1 ≡ published h
  unfolding delete_blobs
  published-delete_blobs [] h = refl
  published-delete_blobs (r ∷ rest) h = published-delete_blobs rest (delete_blob r.blob ∷ h)

  -- Nothing of the submission `id` that began at the history `start` is left at `h`.
  pub record CleanedUp (id : EmailId) (start h : History) : Type 0 where
    pub blobs : (b : BlobRef) → blob_live o b h && not (blob_live o b start) ≡ false
    pub row : row_live o id h ≡ false
    pub queue : enqueued o h ≡ enqueued o start
    pub events : published h ≡ published start

  -- Since `start` only the blobs of `written` have been stored.
  pub record Storing (start : History) (written : List AttachmentRef) (h : History) : Type 0 where
    pub blobs :
        (b : BlobRef) → blob_live o b h ≡ true → (has_blob b written || blob_live o b start) ≡ true
    pub queue : enqueued o h ≡ enqueued o start
    pub events : published h ≡ published start

  pub roll_back-CleanedUp :
      (A : Type 0) {start h : History} (id : EmailId) (written : List AttachmentRef)
      (e : SubmitEmailError)
      → Storing start written h
      → CleanedUp id start (roll_back o {A = A} id written e h).1
  unfolding roll_back
  roll_back-CleanedUp A {h = h} id written e s = record {
    blobs = λ b. ground (arith, blob_live-delete_blobs b written h, s.blobs b);
    row = ground arith;
    queue = ground (arith, enqueued-delete_blobs written h, s.queue);
    events = ground (arith, published-delete_blobs written h, s.events);
  }

  abbrev pub StoreOutcome :
      EmailId → History → Result (List AttachmentRef) SubmitEmailError → History → Type 0
  StoreOutcome id start (err e) h = CleanedUp id start h
  StoreOutcome id start (ok refs) h = Storing start refs h

  roll_back-outcome :
      {start h : History} (id : EmailId) (written : List AttachmentRef) (e : SubmitEmailError)
      → Storing start written h
      → After (StoreOutcome id start) h (roll_back o id written e)
  unfolding roll_back
  roll_back-outcome id written e s = roll_back-CleanedUp (List AttachmentRef) id written e s

  open_reader-Storing :
      {start h : History} (att : AttachmentInput) (written : List AttachmentRef)
      → Storing start written h
      → Storing start written (open_reader o att h).1
  unfolding open_reader
  open_reader-Storing (inline _ _ _) written s = s
  open_reader-Storing (stream _ _ _) written s = s
  open_reader-Storing (remote _ _ _) written s = record {
    blobs = s.blobs;
    queue = s.queue;
    events = s.events;
  }

  put_ok-Storing :
      {start h : History} (att : AttachmentInput) (reader : AttachmentReader)
      (written : List AttachmentRef) (p : PutResult)
      → o h (put reader) ≡ ok p
      → Storing start written h
      → Storing start (written ++ attachment_ref att p ∷ []) (put reader ∷ h)
  unfolding attachment_ref
  put_ok-Storing att reader written p e s = record {
    blobs = λ b. ground (arith, s.blobs b, has_blob-append b written (attachment_ref att p));
    queue = s.queue;
    events = s.events;
  }

  put_err-Storing :
      {start h : History} (reader : AttachmentReader) (written : List AttachmentRef)
      (e : AttachmentStoreError)
      → o h (put reader) ≡ err e
      → Storing start written h
      → Storing start written (put reader ∷ h)
  put_err-Storing reader written e eq s = record {
    blobs = λ b. ground (arith, s.blobs b);
    queue = s.queue;
    events = s.events;
  }

  pub store_attachments-outcome :
      (id : EmailId) (start : History) (atts : List AttachmentInput) (written : List AttachmentRef)
      (h : History)
      → Storing start written h
      → After (StoreOutcome id start) h (store_attachments o id atts written)
  unfolding store_attachments
  store_attachments-outcome id start [] written h s = s
  store_attachments-outcome id start (att ∷ rest) written h s =
      let opened = open_reader o att h in
      let s' = open_reader-Storing att written s in
      Result-elim (After (StoreOutcome id start) opened.1) opened.0 _ _
        (λ reader _.
          Result-elim (After (StoreOutcome id start) (put reader ∷ opened.1))
            (o opened.1 (put reader)) _ _
            (λ p e.
              store_attachments-outcome id start rest (written ++ attachment_ref att p ∷ [])
                (put reader ∷ opened.1) (put_ok-Storing att reader written p e s'))
            (λ e eq.
              roll_back-outcome id written (attachment_store e)
                (put_err-Storing reader written e eq s')))
        (λ e _. roll_back-outcome id written (attachment_fetch e) s')
