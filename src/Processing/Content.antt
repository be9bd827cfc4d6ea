-- ===== src/Processing/Content.antt =====
-- `resolve_attachments` of domain/src/use_case/process_queued_email.rs: the content of the attachments.
use mathlib.Core.List.{append-nil, append_assoc}
use catapulte.Common.{
  subst, ap, ◌⊎◌, inl, inr, List, [], ◌∷◌, ◌++◌, ◌≡◌, refl, sym, ◌∙◌, Result, ok, err, Result-elim,
}
use catapulte.Entity.{AttachmentRef, Bytes, BlobRef, ResolvedAttachment}
use catapulte.Port.Types.{AttachmentReader, AttachmentStoreError}
use catapulte.Port.Call.{After, History, Oracle, get}
use catapulte.Port.Rules.{After-try}
use catapulte.Port.Trace.{attempts, Quiet, Quiet-refl, Quiet-trans}
use catapulte.Processing.{
  AttachmentCause, store, read, ProcessQueuedEmailError, attachment_resolve, resolved_attachment,
  read_blob, resolve_attachments,
}

-- Between the two histories nobody was asked to deliver, and nothing was settled, published or
-- deleted.
pub record Silent (start h : History) : Type 0 where
  pub unsent : attempts h ≡ attempts start
  pub quiet : Quiet start h

pub Silent-refl : (h : History) → Silent h h
Silent-refl h = record { unsent = refl; quiet = Quiet-refl h }

pub Silent-trans : {start k h : History} → Silent start k → Silent k h → Silent start h
Silent-trans p q = record { unsent = q.unsent ∙ p.unsent; quiet = Quiet-trans p.quiet q.quiet }

pub get-Silent : (blob : BlobRef) (h : History) → Silent h (get blob ∷ h)
get-Silent blob h = record {
  unsent = refl;
  quiet = record { settled = refl; events = refl; blobs = refl; rows = refl };
}

module _ (o : Oracle) where
  -- From `start` to `h` the blobs of `atts` were read, in their order, and `contents` are the
  -- attachments with the bytes that the store's readers gave.
  abbrev pub IsRead : List AttachmentRef → List ResolvedAttachment → History → History → Type 0
  IsRead [] [] start h = h ≡ start
  IsRead [] (c ∷ cs) start h = ⊥
  IsRead (a ∷ as') [] start h = ⊥
  IsRead (a ∷ as') (c ∷ cs) start h =
      (o start (get a.blob) ≡ ok (ok c.bytes))
      × (c.filename ≡ a.filename)
      × (c.content_type ≡ a.content_type)
      × IsRead as' cs (get a.blob ∷ start) h

  -- Why a blob could not be read, by the answer of the store.
  abbrev IsCause : Result AttachmentReader AttachmentStoreError → AttachmentCause → Type 0
  IsCause answer (store e) = answer ≡ err e
  IsCause answer (read e) = answer ≡ ok (err e)

  -- From `start` to `h` the blobs of `atts` were read up to one that could not be, because of `c`.
  abbrev pub IsUnreadable : List AttachmentRef → AttachmentCause → History → History → Type 0
  IsUnreadable [] c start h = ⊥
  IsUnreadable (a ∷ as') c start h =
      (IsCause (o start (get a.blob)) c × (h ≡ get a.blob ∷ start))
      ⊎ ((bytes : Bytes) × (o start (get a.blob) ≡ ok (ok bytes))
          × IsUnreadable as' c (get a.blob ∷ start) h)

  abbrev ReadOutcome : BlobRef → History → Result Bytes ProcessQueuedEmailError → History → Type 0
  ReadOutcome blob start (ok bytes) h =
      (o start (get blob) ≡ ok (ok bytes)) × (h ≡ get blob ∷ start)
  ReadOutcome blob start (err e) h =
      (c : AttachmentCause) × (e ≡ attachment_resolve c)
      × IsCause (o start (get blob)) c
      × (h ≡ get blob ∷ start)

  read_blob-outcome :
      (blob : BlobRef) (h : History) → After (ReadOutcome blob h) h (read_blob o blob)
  unfolding read_blob
  read_blob-outcome blob h =
      Result-elim (After (ReadOutcome blob h) (get blob ∷ h)) (o h (get blob)) _ _
        (λ reader opened.
          Result-elim (After (ReadOutcome blob h) (get blob ∷ h)) reader _ _
            (λ bytes e. (opened ∙ ap (λ r. ok r) e, refl))
            (λ x e. (read x, refl, opened ∙ ap (λ r. ok r) e, refl)))
        (λ x failed. (store x, refl, failed, refl))

  abbrev pub ContentOutcome :
      List AttachmentRef
      → List ResolvedAttachment
      → History
      → Result (List ResolvedAttachment) ProcessQueuedEmailError
      → History
      → Type 0
  ContentOutcome atts before start (ok contents) h =
      (more : List ResolvedAttachment) × (contents ≡ before ++ more) × IsRead atts more start h
  ContentOutcome atts before start (err e) h =
      (c : AttachmentCause) × (e ≡ attachment_resolve c) × IsUnreadable atts c start h

  content-step :
      (att : AttachmentRef) (bytes : Bytes) (rest : List AttachmentRef)
      (before : List ResolvedAttachment) (start h : History)
      (r : Result (List ResolvedAttachment) ProcessQueuedEmailError)
      → o start (get att.blob) ≡ ok (ok bytes)
      → ContentOutcome rest
          (before ++ resolved_attachment att bytes ∷ [])
          (get att.blob ∷ start)
          r
          h
      → ContentOutcome (att ∷ rest) before start r h
  unfolding resolved_attachment
  content-step att bytes rest before start h (ok contents) e (more, same, all) =
      let r = resolved_attachment att bytes in
      (r ∷ more, same ∙ append_assoc before (r ∷ []) more, (e, refl, refl, all))
  content-step att bytes rest before start h (err x) e (c, same, all) =
      (c, same, inr (bytes, e, all))

  pub resolve_attachments-outcome :
      (atts : List AttachmentRef) (before : List ResolvedAttachment) (start : History)
      → After (ContentOutcome atts before start) start (resolve_attachments o atts before)
  unfolding resolve_attachments
  resolve_attachments-outcome [] before start = ([], sym (append-nil before), refl)
  resolve_attachments-outcome (att ∷ rest) before start =
      After-try (ContentOutcome (att ∷ rest) before start) (ReadOutcome att.blob start)
        (read_blob o att.blob) _ _ start (read_blob-outcome att.blob start)
        (λ bytes k (e, last).
          let more = before ++ resolved_attachment att bytes ∷ [] in
          subst
            (λ l.
              After (ContentOutcome (att ∷ rest) before start) l (resolve_attachments o rest more))
            (sym last)
            (let run = resolve_attachments o rest more (get att.blob ∷ start) in
              content-step att bytes rest before start run.1 run.0 e
                (resolve_attachments-outcome rest more (get att.blob ∷ start))))
        (λ e k (c, same, why, last). (c, same, inl (why, last)))

  pub IsRead-Silent :
      (atts : List AttachmentRef) (contents : List ResolvedAttachment) (start h : History)
      → IsRead atts contents start h
      → Silent start h
  IsRead-Silent [] [] start h e = subst (Silent start) (sym e) (Silent-refl start)
  IsRead-Silent [] (c ∷ cs) start h e = absurd e
  IsRead-Silent (a ∷ as') [] start h e = absurd e
  IsRead-Silent (a ∷ as') (c ∷ cs) start h (_, _, _, all) =
      Silent-trans (get-Silent a.blob start) (IsRead-Silent as' cs (get a.blob ∷ start) h all)

  pub IsUnreadable-Silent :
      (atts : List AttachmentRef) (c : AttachmentCause) (start h : History)
      → IsUnreadable atts c start h
      → Silent start h
  IsUnreadable-Silent [] c start h e = absurd e
  IsUnreadable-Silent (a ∷ as') c start h (inl (_, e)) =
      subst (Silent start) (sym e) (get-Silent a.blob start)
  IsUnreadable-Silent (a ∷ as') c start h (inr (_, _, all)) =
      Silent-trans (get-Silent a.blob start) (IsUnreadable-Silent as' c (get a.blob ∷ start) h all)
